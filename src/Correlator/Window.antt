-- ===== src/Correlator/Window.antt =====
-- The circular buffer against the list of the last 16 symbols, oldest first.
use mathlib.Core.List.{append_assoc, append-nil}
use native.Mathlib.Decide.{dec_lt}
use openstint.Base.{
  All, List, [], ap, arith, drop, get_or, length, length-set, refl, set, suc, sym, take, zero, ℕ,
  ◌%◌, ◌*◌, ◌++◌, ◌+◌, ◌<◌, ◌^◌, ◌∙◌, ◌∷◌, ◌≡◌, ◌≤◌,
}
use openstint.Base.Int.{ℤ, pos}
use openstint.Correlator.{CircBuff, push, clear_next}

module _ {A : Type 0} where
  drop-set : (xs : List A) (i : ℕ) (v : A) → drop (suc i) (set xs i v) ≡ drop (suc i) xs
  drop-set [] i v = refl
  drop-set (x ∷ xs) zero v = refl
  drop-set (x ∷ xs) (suc i) v = drop-set xs i v

  take-set :
      (xs : List A) (i : ℕ) (v : A)
      → i < length xs
      → take (suc i) (set xs i v) ≡ take i xs ++ v ∷ []
  take-set [] i v h = absurd (omega arith)
  take-set (x ∷ xs) zero v h = refl
  take-set (x ∷ xs) (suc i) v h = ap (◌∷◌ x) (take-set xs i v (omega arith))

  drop-all : (xs : List A) → drop (length xs) xs ≡ []
  drop-all [] = refl
  drop-all (x ∷ xs) = drop-all xs

  take-all : (xs : List A) → take (length xs) xs ≡ xs
  take-all [] = refl
  take-all (x ∷ xs) = ap (◌∷◌ x) (take-all xs)

  -- The entries from the position `phase` on, going round.
  abbrev pub window : ℕ → List A → List A
  window phase xs = drop phase xs ++ take phase xs

  drop-one :
      (i : ℕ) (xs : List A) (ys : List A)
      → i < length xs
      → drop 1 (drop i xs ++ ys) ≡ drop (suc i) xs ++ ys
  drop-one i [] ys h = absurd (omega arith)
  drop-one zero (x ∷ xs) ys h = refl
  drop-one (suc i) (x ∷ xs) ys h = drop-one i xs ys (omega arith)

  -- A write at the position, seen from the next one.
  window-set :
      (i : ℕ) (xs : List A) (v : A)
      → i < length xs
      → window (suc i) (set xs i v) ≡ drop 1 (window i xs) ++ v ∷ []
  window-set i xs v h =
      rw (drop-set xs i v, take-set xs i v h, drop-one i xs (take i xs) h)
        (sym (append_assoc (drop (suc i) xs) (take i xs) (v ∷ [])))

  -- The position after the last is the first.
  window-length : (xs : List A) → window (length xs) xs ≡ window 0 xs
  window-length xs = rw (drop-all xs, take-all xs, append-nil)

unfoldable pub sum : List ℕ → ℕ
sum [] = 0
sum (x ∷ xs) = x + sum xs

sum-set : (xs : List ℕ) (i v : ℕ) → i < length xs → sum (set xs i v) + get_or xs i 0 ≡ sum xs + v
unfolding sum
sum-set [] i v h = absurd (omega arith)
sum-set (x ∷ xs) zero v h = omega arith
sum-set (x ∷ xs) (suc i) v h = omega (arith, sum-set xs i v (omega arith))

abbrev pub AreSmall : List ℕ → Type 0
AreSmall = All (λ e. e < 2 ^ 32)

set-AreSmall : (xs : List ℕ) (i v : ℕ) → AreSmall xs → v < 2 ^ 32 → AreSmall (set xs i v)
set-AreSmall [] i v a h = tt
set-AreSmall (x ∷ xs) zero v a h = (h, a.1)
set-AreSmall (x ∷ xs) (suc i) v a h = (a.0, set-AreSmall xs i v a.1 h)

sum-le : (xs : List ℕ) → AreSmall xs → sum xs ≤ 2 ^ 32 * length xs
unfolding sum
sum-le [] a = omega arith
sum-le (x ∷ xs) a = omega (arith, a.0, sum-le xs a.1)

get_or-le-sum : (xs : List ℕ) (i : ℕ) → get_or xs i 0 ≤ sum xs
unfolding sum
get_or-le-sum [] i = omega arith
get_or-le-sum (x ∷ xs) zero = omega arith
get_or-le-sum (x ∷ xs) (suc i) = omega (arith, get_or-le-sum xs i)

-- Sixteen entries, a position among them, and the energy of the window kept beside them.
pub record IsValid (c : CircBuff) : Type 0 where
  pub phase_in : c.phase < 16
  pub symbols : length c.buff ≡ 16
  pub energies : length c.buff_e ≡ 16
  pub small : AreSmall c.buff_e
  pub summed : c.window_energy ≡ sum c.buff_e

-- Pushing a symbol keeps the buffer valid: the running energy stays the exact sum of the last 16
-- energies, with no `uint64_t` wrap-around left in it.
pub push-IsValid : (x : ℤ) (e : ℕ) (c : CircBuff) → e < 2 ^ 32 → IsValid c → IsValid (push x e c)
unfolding push
push-IsValid x e c h v = record {
  phase_in = omega arith;
  symbols = rw (length-set c.buff c.phase x) v.symbols;
  energies = rw (length-set c.buff_e c.phase e) v.energies;
  small = set-AreSmall c.buff_e c.phase e v.small h;
  summed = omega (
    arith,
    v.summed,
    sum-set c.buff_e c.phase e (omega (arith, v.phase_in, v.energies)),
    sum-le c.buff_e v.small,
    sum-le (set c.buff_e c.phase e) (set-AreSmall c.buff_e c.phase e v.small h),
    length-set c.buff_e c.phase e,
    v.energies,
    get_or-le-sum c.buff_e c.phase,
  );
}

pub clear_next-IsValid : (c : CircBuff) → IsValid c → IsValid (clear_next c)
unfolding clear_next
clear_next-IsValid c v = record {
  phase_in = v.phase_in;
  symbols = rw (length-set c.buff c.phase (pos 0)) v.symbols;
  energies = rw (length-set c.buff_e c.phase 0) v.energies;
  small = set-AreSmall c.buff_e c.phase 0 v.small (omega arith);
  summed = omega (
    arith,
    v.summed,
    sum-set c.buff_e c.phase 0 (omega (arith, v.phase_in, v.energies)),
    sum-le c.buff_e v.small,
    v.energies,
    get_or-le-sum c.buff_e c.phase,
  );
}

-- One step of the position.
window_next :
    {A : Type 0} (xs : List A) (i : ℕ) (v : A)
    → length xs ≡ 16
    → i < 16
    → window ((i + 1) % 16) (set xs i v) ≡ drop 1 (window i xs) ++ v ∷ []
window_next xs i v hl hi = elim (dec_lt i 15) [
  | yes p ↦ let e : (i + 1) % 16 ≡ suc i = omega arith in rw e (window-set i xs v (omega arith))
  | no p ↦
      let e : (i + 1) % 16 ≡ 0 = omega arith in
      let f : suc i ≡ length (set xs i v) = omega (arith, length-set xs i v) in
      rw e (
        sym (window-length (set xs i v))
        ∙ ap (λ k. window k (set xs i v)) (sym f)
        ∙ window-set i xs v (omega arith))
]

-- The buffer is a sliding window: a push drops the oldest symbol and its energy and appends the
-- new ones.
pub push-window :
    (x : ℤ) (e : ℕ) (c : CircBuff)
    → IsValid c
    → (window (push x e c).phase (push x e c).buff ≡ drop 1 (window c.phase c.buff) ++ x ∷ [])
      × (window (push x e c).phase (push x e c).buff_e ≡ drop 1 (window c.phase c.buff_e) ++ e ∷ [])
unfolding push
push-window x e c v = (
  window_next c.buff c.phase x v.symbols v.phase_in,
  window_next c.buff_e c.phase e v.energies v.phase_in,
)

-- ===== src/Correlator/Rotation.antt =====
-- The shifted rows of `Preamble` against the order in which the symbols came.

use mathlib.Core.List.{append_assoc, append-nil}
use openstint.Base.{
  List, [], ap, ap₂, arith, drop, get_or, length, length-append, length-drop, length-take, refl,
  suc, sym, take, take-append-drop, zero, ℕ, ◌++◌, ◌+◌, ◌∙◌, ◌∷◌, ◌≡◌,
}
use openstint.Base.Int.{ℤ, pos, ◌+ℤ◌, ◌*ℤ◌, +ℤ_comm, +ℤ_assoc}
use openstint.Correlator.{CircBuff, pattern_row, shift_row, pattern_at, dot_product, dot}
use openstint.Correlator.Window.{window, IsValid}

get_or-snoc : (xs : List ℤ) (z d : ℤ) → get_or (xs ++ z ∷ []) (length xs) d ≡ z
get_or-snoc [] z d = refl
get_or-snoc (x ∷ xs) z d = get_or-snoc xs z d

take-snoc : (xs : List ℤ) (z : ℤ) → take (length xs) (xs ++ z ∷ []) ≡ xs
take-snoc [] z = refl
take-snoc (x ∷ xs) z = ap (◌∷◌ x) (take-snoc xs z)

shift_row-snoc : (xs : List ℤ) (z : ℤ) → length xs ≡ 15 → shift_row (xs ++ z ∷ []) ≡ z ∷ xs
shift_row-snoc xs z h =
    ap₂ ◌∷◌ (ap (λ k. get_or (xs ++ z ∷ []) k (pos 0)) (sym h) ∙ get_or-snoc xs z (pos 0))
      (ap (λ k. take k (xs ++ z ∷ [])) (sym h) ∙ take-snoc xs z)

-- A list with a last entry.
snoc_of :
    (n : ℕ) (l : List ℤ)
    → length l ≡ suc n
    → (xs : List ℤ) × (z : ℤ) × (l ≡ xs ++ z ∷ []) × (length xs ≡ n)
snoc_of n [] h = absurd (omega arith)
snoc_of n (x ∷ []) h = ([], x, refl, omega arith)
snoc_of zero (x ∷ y ∷ l) h = absurd (omega arith)
snoc_of (suc n) (x ∷ y ∷ l) h =
    let (xs, z, e, k) = snoc_of n (y ∷ l) (omega arith) in (x ∷ xs, z, ap (◌∷◌ x) e, ap suc k)

dot-snoc :
    (xs ps : List ℤ) (x p : ℤ)
    → length xs ≡ length ps
    → dot_product (xs ++ x ∷ []) (ps ++ p ∷ []) ≡ x *ℤ p +ℤ dot_product xs ps
unfolding dot_product
dot-snoc [] [] x p h = refl
dot-snoc [] (q ∷ ps) x p h = absurd (omega arith)
dot-snoc (y ∷ xs) [] x p h = absurd (omega arith)
dot-snoc (y ∷ xs) (q ∷ ps) x p h = rw (dot-snoc xs ps x p (omega arith)) (
    sym (+ℤ_assoc (y *ℤ q) (x *ℤ p) (dot_product xs ps))
    ∙ ap (λ k. k +ℤ dot_product xs ps) (+ℤ_comm (y *ℤ q) (x *ℤ p))
    ∙ +ℤ_assoc (x *ℤ p) (y *ℤ q) (dot_product xs ps))

length-shift_row : (l : List ℤ) → length l ≡ 16 → length (shift_row l) ≡ 16
length-shift_row l h = omega (arith, length-take 15 l)

dot-shift_row :
    (xs ps : List ℤ)
    → length xs ≡ 16
    → length ps ≡ 16
    → dot_product (shift_row xs) (shift_row ps) ≡ dot_product xs ps
dot-shift_row xs ps hx hp =
    let (ys, y, ey, ly) = snoc_of 15 xs hx in
    let (qs, q, eq, lq) = snoc_of 15 ps hp in
    rw (ey, eq, shift_row-snoc ys y ly, shift_row-snoc qs q lq)
      (dot-cons y q ys qs ∙ sym (dot-snoc ys qs y q (omega arith)))
  where
    dot-cons :
        (y q : ℤ) (ys qs : List ℤ) → dot_product (y ∷ ys) (q ∷ qs) ≡ y *ℤ q +ℤ dot_product ys qs
    dot-cons y q ys qs = unfold dot_product in refl

length-pattern_at : (n : ℕ) (l : List ℤ) → length l ≡ 16 → length (pattern_at n l) ≡ 16
unfolding pattern_at
length-pattern_at zero l h = h
length-pattern_at (suc n) l h = length-shift_row (pattern_at n l) (length-pattern_at n l h)

dot-pattern_at :
    (n : ℕ) (xs ps : List ℤ)
    → length xs ≡ 16
    → length ps ≡ 16
    → dot_product (pattern_at n xs) (pattern_at n ps) ≡ dot_product xs ps
unfolding pattern_at
dot-pattern_at zero xs ps hx hp = refl
dot-pattern_at (suc n) xs ps hx hp =
    dot-shift_row (pattern_at n xs) (pattern_at n ps) (length-pattern_at n xs hx)
      (length-pattern_at n ps hp)
    ∙ dot-pattern_at n xs ps hx hp

-- As many shifts as `ys` is long bring `ys` to the front.
pattern_at-append :
    (n : ℕ) (xs ys : List ℤ)
    → length ys ≡ n
    → length xs + n ≡ 16
    → pattern_at n (xs ++ ys) ≡ ys ++ xs
unfolding pattern_at
pattern_at-append zero xs [] hy hx = rw append-nil
pattern_at-append zero xs (y ∷ ys) hy hx = absurd (omega arith)
pattern_at-append (suc n) xs [] hy hx = absurd (omega arith)
pattern_at-append (suc n) xs (y ∷ ys) hy hx =
    let regroup : xs ++ y ∷ ys ≡ (xs ++ y ∷ []) ++ ys = sym (append_assoc xs (y ∷ []) ys) in
    ap (λ l. shift_row (pattern_at n l)) regroup
    ∙ ap shift_row (
        pattern_at-append n (xs ++ y ∷ []) ys (omega arith)
          (omega (arith, length-append {0} xs (y ∷ []))))
    ∙ ap shift_row (sym (append_assoc ys xs (y ∷ [])))
    ∙ shift_row-snoc (ys ++ xs) y (omega (arith, length-append {0} ys xs))

length-pattern_row : (n preamble : ℕ) → length (pattern_row n preamble) ≡ n
unfolding pattern_row
length-pattern_row zero preamble = refl
length-pattern_row (suc n) preamble = ap suc (length-pattern_row n preamble)

-- The filter over the circular buffer, with the row for its position, is the correlation of the
-- preamble's signs with the last 16 symbols in the order in which they came.
pub dot-window :
    (preamble : ℕ) (c : CircBuff)
    → IsValid c
    → dot preamble c.buff c.phase ≡ dot_product (window c.phase c.buff) (pattern_row 16 preamble)
unfolding dot
dot-window preamble c v =
    let l = length-take c.phase c.buff in
    let m = length-drop c.phase c.buff in
    let back : pattern_at c.phase (window c.phase c.buff) ≡ c.buff =
      pattern_at-append c.phase (drop c.phase c.buff) (take c.phase c.buff)
        (omega (arith, v.phase_in, v.symbols)) (omega (arith, v.phase_in, v.symbols))
      ∙ take-append-drop c.phase c.buff in
    ap (λ b. dot_product b (pattern_at c.phase (pattern_row 16 preamble))) (sym back)
    ∙ dot-pattern_at c.phase (window c.phase c.buff) (pattern_row 16 preamble)
        (omega (
          arith,
          v.phase_in,
          v.symbols,
          length-append {0} (drop c.phase c.buff) (take c.phase c.buff),
        ))
        (length-pattern_row 16 preamble)

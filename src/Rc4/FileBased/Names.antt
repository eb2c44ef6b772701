-- ===== src/Rc4/FileBased/Names.antt =====
-- That `resync` of `RC4FileBasedRegistry` in src/rc4.cpp reads from a file's name the id for which
-- `store` has made it.
use openstint.Base.{
  Bool-cases, List, [], arith, false, inl, inr, leb, ltb, refl, some, subst, suc, true, zero, ℕ,
  ◌%◌, ◌&&◌, ◌*◌, ◌++◌, ◌+◌, ◌-◌, ◌/◌, ◌<◌, ◌^◌, ◌∷◌, ◌≡◌, ◌≤◌,
}
use native.Mathlib.Nat.{pow-suc}
use openstint.Rc4.FileBased.{
  file_id, same_text, all_digits, read_digits, is_empty, decimal_digits, file_stem, file_of,
}

read_digits-append :
    (v : ℕ) (cs : List ℕ) (c : ℕ) → read_digits v (cs ++ c ∷ []) ≡ read_digits v cs * 10 + (c - 48)
unfolding read_digits
read_digits-append v [] c = refl
read_digits-append v (d ∷ cs) c = read_digits-append (v * 10 + (d - 48)) cs c

all_digits-append :
    (cs : List ℕ) (c : ℕ)
    → all_digits cs ≡ true
    → 48 ≤ c
    → c ≤ 57
    → all_digits (cs ++ c ∷ []) ≡ true
unfolding all_digits
all_digits-append [] c h lo hi = ground arith
all_digits-append (d ∷ cs) c h lo hi = elim (Bool-cases (leb 48 d && leb d 57)) [
  | inl digit ↦ rw digit (all_digits-append cs c (rw digit at h) lo hi)
  | inr other ↦ absurd (cc (rw other at h))
]

all_digits-decimal_digits : (n v : ℕ) → all_digits (decimal_digits n v) ≡ true
unfolding decimal_digits all_digits
all_digits-decimal_digits zero v = refl
all_digits-decimal_digits (suc n) v = elim (Bool-cases (ltb v 10)) [
  | inl small ↦ rw small (ground (arith, small))
  | inr large ↦ rw large (
      all_digits-append (decimal_digits n (v / 10)) (48 + v % 10)
        (all_digits-decimal_digits n (v / 10)) (omega arith) (omega arith))
]

read_digits-decimal_digits : (n v : ℕ) → v < 10 ^ n → read_digits 0 (decimal_digits n v) ≡ v
unfolding decimal_digits read_digits
read_digits-decimal_digits zero v h = omega (arith, h)
read_digits-decimal_digits (suc n) v h = elim (Bool-cases (ltb v 10)) [
  | inl small ↦ rw small (omega arith)
  | inr large ↦
      let wide : v < 10 ^ n * 10 = subst (λ m. v < m) (pow-suc 10 n) h in
      let rest = read_digits-decimal_digits n (v / 10) (omega (arith, wide)) in
      rw (large, read_digits-append 0 (decimal_digits n (v / 10)) (48 + v % 10), rest) (omega arith)
]

nonempty-decimal_digits : (n v : ℕ) → is_empty (decimal_digits (suc n) v) ≡ false
unfolding decimal_digits
nonempty-decimal_digits n v = elim (Bool-cases (ltb v 10)) [
  | inl small ↦ rw small refl
  | inr large ↦ rw large (nonempty-append (decimal_digits n (v / 10)))
]
  where
    nonempty-append : (cs : List ℕ) → is_empty (cs ++ (48 + v % 10) ∷ []) ≡ false
    nonempty-append [] = refl
    nonempty-append (c ∷ cs) = refl

-- The name of a file that was made for an id is read as that id.
pub file_id-file_of : (id : ℕ) (text : List ℕ) → id < 2 ^ 32 → file_id (file_of id text) ≡ some id
unfolding file_id file_of file_stem same_text
file_id-file_of id text h =
    let value = read_digits-decimal_digits 10 id (omega arith) in
    rw (nonempty-decimal_digits 9 id, all_digits-decimal_digits 10 id, value) (ground arith)

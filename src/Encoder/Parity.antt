-- ===== src/Encoder/Parity.antt =====
-- That the folding of `parity4` in docs/fec-conv.c is the parity of a word.
use native.Mathlib.Nat.{pow-suc, one-le-pow}
use native.Mathlib.Decide.{dec_lt}
use openstint.Base.{
  Bool, ap, arith, bit_and, bit_and_mask, bit_and_step, bit_xor, bit_xor_step, div-pow-suc,
  div-pow_comm, ones, refl, suc, sym, true, zero, ℕ, ◌%◌, ◌&&◌, ◌+◌, ◌-◌, ◌/◌, ◌<◌, ◌==◌, ◌^◌, ◌∙◌,
  ◌≡◌,
}
use openstint.Encoder.{parity1, parity4}

ones-xor : (n x y : ℕ) → ones n (bit_xor x y) % 2 ≡ (ones n x + ones n y) % 2
unfolding ones
ones-xor zero x y = refl
ones-xor (suc n) x y =
    let step = bit_xor_step x y in
    let top : bit_xor x y / 2 ≡ bit_xor (x / 2) (y / 2) = omega (arith, step) in
    let low : bit_xor x y % 2 ≡ (x % 2 + y % 2) % 2 = omega (arith, step) in
    rw (top, low) (omega (arith, ones-xor n (x / 2) (y / 2)))

-- The digits below and from place `k` on.
pub ones-plus : (k n x : ℕ) → ones (k + n) x ≡ ones k x + ones n (x / 2 ^ k)
unfolding ones
ones-plus zero n x =
    let whole : x / 2 ^ 0 ≡ x = omega arith in
    let places : 0 + n ≡ n = omega arith in
    let same : ones (0 + n) x ≡ ones n (x / 2 ^ 0) =
      ap (λ k. ones k x) places ∙ sym (ap (ones n) whole) in
    omega (arith, same)
ones-plus (suc k) n x =
    let top : x / 2 / 2 ^ k ≡ x / 2 ^ suc k = div-pow_comm k x ∙ sym (div-pow-suc k x) in
    let places : suc k + n ≡ suc (k + n) = omega arith in
    let first : ones (suc k + n) x ≡ ones (suc (k + n)) x = ap (λ m. ones m x) places in
    omega (arith, first, ones-plus k n (x / 2), ap (ones n) top)

ones_mask : (k x : ℕ) → ones k (bit_and x (2 ^ k - 1)) ≡ ones k x
unfolding ones
ones_mask zero x = refl
ones_mask (suc k) x =
    let double : 2 ^ suc k ≡ 2 ^ k + 2 ^ k = omega (arith, pow-suc 2 k) in
    let positive = one-le-pow k 2 in
    let half : (2 ^ suc k - 1) / 2 ≡ 2 ^ k - 1 = omega (arith, double, positive) in
    let step = bit_and_step x (2 ^ suc k - 1) in
    let top : bit_and x (2 ^ suc k - 1) / 2 ≡ bit_and (x / 2) (2 ^ k - 1) =
      omega (arith, step, ap (bit_and (x / 2)) half) in
    let low : bit_and x (2 ^ suc k - 1) % 2 ≡ x % 2 = omega (arith, step, double, positive) in
    rw (top, low) (ap (λ t. x % 2 + t) (ones_mask k (x / 2)))

ones_mod : (k x : ℕ) → ones k (x % 2 ^ k) ≡ ones k x
ones_mod k x = ap (ones k) (sym (bit_and_mask k x)) ∙ ones_mask k x

-- The table of four bits that 0x6996 is.
agrees : ℕ → Bool
unfolding ones
agrees x = 0x6996 / 2 ^ x % 2 == ones 4 x % 2

all_below : (ℕ → Bool) → ℕ → Bool
all_below f zero = true
all_below f (suc n) = f n && all_below f n

at-all_below : (f : ℕ → Bool) (n x : ℕ) → all_below f n ≡ true → x < n → f x ≡ true
unfolding all_below
at-all_below f zero x agree h = absurd (omega arith)
at-all_below f (suc n) x agree h = elim (dec_lt x n) [
  | yes before ↦ at-all_below f n x (ground (arith, agree)) before
  | no last ↦ let equal : x ≡ n = omega (arith, last, h) in ap f equal ∙ ground (arith, agree)
]

all_agree : all_below agrees 16 ≡ true
unfolding all_below agrees ones
all_agree = refl

table : (x : ℕ) → x < 16 → 0x6996 / 2 ^ x % 2 ≡ ones 4 x % 2
unfolding agrees
table x h =
    let same : (0x6996 / 2 ^ x % 2 == ones 4 x % 2) ≡ true = at-all_below agrees 16 x all_agree h in
    ground (arith, same)

-- Folding the upper half of the digits onto the lower half keeps the parity.
ones-fold : (k x : ℕ) → ones k (bit_xor x (x / 2 ^ k)) % 2 ≡ ones (k + k) x % 2
ones-fold k x = omega (arith, ones-xor k x (x / 2 ^ k), ones-plus k k x)

parity1-ones : (x : ℕ) → parity1 x ≡ ones 8 x % 2
unfolding parity1
parity1-ones x =
    let folded = bit_xor x (x / 16) in
    let small : bit_and folded 15 < 16 = omega (arith, bit_and_mask 4 folded) in
    table (bit_and folded 15) small ∙ ap (λ t. t % 2) (ones_mask 4 folded) ∙ ones-fold 4 x

-- The folding of a word of 32 bits is 1 exactly if the number of its ones is odd.
pub parity4-ones : (v : ℕ) → parity4 v ≡ ones 32 v % 2
unfolding parity4
parity4-ones v =
    let half = bit_xor v (v / 65536) in
    let folded = bit_xor half (half / 256) in
    parity1-ones (folded % 256)
    ∙ ap (λ t. t % 2) (ones_mod 8 folded)
    ∙ ones-fold 8 half
    ∙ ones-fold 16 v

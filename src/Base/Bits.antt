-- ===== src/Base/Bits.antt =====
-- Machine words: the lowest digit of the native bit operations, fields, masks and `popcount`.
use Prim.Native.Nat.{
  ℕ, zero, suc, ◌+◌, ◌-◌, ◌*◌, ◌/◌, ◌%◌, ◌^◌, ◌≤◌, ◌<◌, min, max, bit_and, bit_or, bit_xor, digits,
  bitwise, bit_and-bitwise, bit_or-bitwise, bit_xor-bitwise, differ,
}
use mathlib.Core.Path.{◌≡◌, refl, ap, sym, ◌∙◌}
use native.Mathlib.Nat.{pow-suc, one-le-pow, div-div-eq-div-mul, mul_comm}
use openstint.Base.Tests.{◌==◌, if◌then◌else◌}
use native.Mathlib.Omega.{arith}

-- The recursion on digits does not change with more steps than its argument needs.
module _ (z : ℕ → ℕ) (f : ℕ → ℕ → ℕ) where
  one_more : (n x y : ℕ) → x ≤ n → digits z f (suc n) x y ≡ digits z f n x y
  one_more zero zero y h = refl
  one_more zero (suc x) y h = absurd (omega arith)
  one_more (suc n) zero y h = refl
  one_more (suc n) (suc x) y h =
      ap (λ top. top * 2 + f (suc x % 2) (y % 2)) (one_more n (suc x / 2) (y / 2) (omega arith))

  spare : (k x y : ℕ) → digits z f (k + x) x y ≡ bitwise z f x y
  spare zero x y = ap (λ n. digits z f n x y) (omega arith)
  spare (suc k) x y =
      let steps : suc k + x ≡ suc (k + x) = omega arith in
      ap (λ n. digits z f n x y) steps ∙ one_more (k + x) x y (omega arith) ∙ spare k x y

  lowest_digit :
      (x y : ℕ)
      → bitwise z f (suc x) y ≡ bitwise z f (suc x / 2) (y / 2) * 2 + f (suc x % 2) (y % 2)
  lowest_digit x y =
      let steps : x ≡ x - suc x / 2 + suc x / 2 = omega arith in
      ap (λ top. top * 2 + f (suc x % 2) (y % 2))
        (ap (λ n. digits z f n (suc x / 2) (y / 2)) steps
          ∙ spare (x - suc x / 2) (suc x / 2) (y / 2))

pub bit_or_step : (x y : ℕ) → bit_or x y ≡ max (x % 2) (y % 2) + bit_or (x / 2) (y / 2) * 2
bit_or_step zero y = simp bit_or-bitwise (omega arith)
bit_or_step (suc x) y = simp bit_or-bitwise (omega (arith, lowest_digit (λ i. i) max x y))

pub bit_and_step : (x y : ℕ) → bit_and x y ≡ min (x % 2) (y % 2) + bit_and (x / 2) (y / 2) * 2
bit_and_step zero y = simp bit_and-bitwise (omega arith)
bit_and_step (suc x) y = simp bit_and-bitwise (omega (arith, lowest_digit (λ i. 0) min x y))

-- By a bound on the number, which halving keeps.
with_zero : (n x : ℕ) → x ≤ n → (bit_or x 0 ≡ x) × (bit_and x 0 ≡ 0)
with_zero n zero h = (refl, refl)
with_zero zero (suc x) h = absurd (omega arith)
with_zero (suc n) (suc x) h =
    let (either, both) = with_zero n (suc x / 2) (omega arith) in
    (omega (arith, bit_or_step (suc x) 0, either), omega (arith, bit_and_step (suc x) 0, both))

pub bit_and-zero : (x : ℕ) → bit_and x 0 ≡ 0
bit_and-zero x = (with_zero x x (omega arith)).1

pub mul-pow-suc : (q k : ℕ) → q * 2 ^ suc k ≡ q * 2 ^ k + q * 2 ^ k
mul-pow-suc q k = omega (arith, ap (λ (p : ℕ). q * p) (pow-suc 2 k))

-- Where the low `k` bits of one number are free, another of `k` bits is put in, and taken out again.
low_bits :
    (k q x : ℕ)
    → x < 2 ^ k
    → (bit_or (q * 2 ^ k) x ≡ q * 2 ^ k + x) × (bit_and (q * 2 ^ k + x) (2 ^ k - 1) ≡ x)
low_bits zero q x h =
    (ground (arith, (with_zero q q (omega arith)).0), ground (arith, bit_and-zero (q * 2 ^ 0 + x)))
low_bits (suc k) q x h =
    let double : 2 ^ suc k ≡ 2 ^ k + 2 ^ k = omega (arith, pow-suc 2 k) in
    let (put, taken) = low_bits k q (x / 2) (omega (arith, double)) in
    (
      ground (arith, bit_or_step (q * 2 ^ suc k) x, mul-pow-suc q k, double, put),
      ground (
        arith,
        bit_and_step (q * 2 ^ suc k + x) (2 ^ suc k - 1),
        mul-pow-suc q k,
        double,
        one-le-pow k 2,
        taken,
      ),
    )

pub bit_or_fields : (k q x : ℕ) → x < 2 ^ k → bit_or (q * 2 ^ k) x ≡ q * 2 ^ k + x
bit_or_fields k q x h = (low_bits k q x h).0

-- A mask of `k` low bits is the remainder by `2 ^ k`.
pub bit_and_mask : (k a : ℕ) → bit_and a (2 ^ k - 1) ≡ a % 2 ^ k
bit_and_mask k a =
    ground (
      arith,
      one-le-pow k 2,
      (low_bits k (a / 2 ^ k) (a % 2 ^ k) (omega (arith, one-le-pow k 2))).1,
    )

pub div-pow-suc : (i m : ℕ) → m / 2 ^ suc i ≡ m / 2 ^ i / 2
div-pow-suc i m = rw (pow-suc 2 i) (sym (div-div-eq-div-mul m (2 ^ i) 2))

pub div-pow_comm : (i m : ℕ) → m / 2 / 2 ^ i ≡ m / 2 ^ i / 2
div-pow_comm i m =
    div-div-eq-div-mul m 2 (2 ^ i)
    ∙ ap (λ k. m / k) (mul_comm 2 (2 ^ i))
    ∙ sym (div-div-eq-div-mul m (2 ^ i) 2)

-- `bit_and m (1 << i)`
pub bit_and-pow : (i m : ℕ) → bit_and m (2 ^ i) ≡ m / 2 ^ i % 2 * 2 ^ i
bit_and-pow zero m = omega (arith, bit_and_mask 1 m)
bit_and-pow (suc i) m =
    let half : 2 ^ suc i / 2 ≡ 2 ^ i = omega (arith, pow-suc 2 i) in
    let even : 2 ^ suc i % 2 ≡ 0 = omega (arith, pow-suc 2 i) in
    bit_and_step m (2 ^ suc i)
    ∙ rw (half, even, bit_and-pow i (m / 2), div-pow-suc i m, pow-suc 2 i, div-pow_comm i m)
        (omega arith)

pub bit_at : (i m : ℕ) → (if bit_and m (2 ^ i) == 0 then 0 else 1) ≡ m / 2 ^ i % 2
bit_at i m = ground (arith, bit_and-pow i m, one-le-pow i 2)

-- The ones among the lowest `n` digits.
unfoldable pub ones : ℕ → ℕ → ℕ
ones zero x = 0
ones (suc n) x = x % 2 + ones n (x / 2)

-- `std::popcount` of a word of at most 64 bits.
unfoldable pub popcount : ℕ → ℕ
unfolding ones
popcount x = ones 64 x

pub ones_step : (n x : ℕ) → ones (suc n) x ≡ x % 2 + ones n (x / 2)
unfolding ones
ones_step n x = refl

-- On single bits, `^` is addition modulo 2.
pub bit_xor-bits : (x y : ℕ) → x < 2 → y < 2 → bit_xor x y ≡ (x + y) % 2
bit_xor-bits zero zero p q = refl
bit_xor-bits zero (suc zero) p q = refl
bit_xor-bits (suc zero) zero p q = refl
bit_xor-bits (suc zero) (suc zero) p q = refl
bit_xor-bits (suc (suc x)) y p q = absurd (omega arith)
bit_xor-bits x (suc (suc y)) p q = absurd (omega arith)

differ-bits : (x y : ℕ) → x < 2 → y < 2 → differ x y ≡ (x + y) % 2
differ-bits zero zero p q = refl
differ-bits zero (suc zero) p q = refl
differ-bits (suc zero) zero p q = refl
differ-bits (suc zero) (suc zero) p q = refl
differ-bits (suc (suc x)) y p q = absurd (omega arith)
differ-bits x (suc (suc y)) p q = absurd (omega arith)

pub bit_xor_step : (x y : ℕ) → bit_xor x y ≡ (x % 2 + y % 2) % 2 + bit_xor (x / 2) (y / 2) * 2
bit_xor_step zero y = simp bit_xor-bitwise (omega arith)
bit_xor_step (suc x) y = simp bit_xor-bitwise (
    omega (
      arith,
      lowest_digit (λ i. i) differ x y,
      differ-bits (suc x % 2) (y % 2) (omega arith) (omega arith),
    ))

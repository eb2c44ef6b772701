-- ===== src/Rc4/Message/Roundtrip.antt =====
-- The encoder that `RC4Message` of src/rc4.cpp is the inverse of, and the round trip.
use openstint.Base.{
  All, List, [], ap, arith, bit_or, bit_or_fields, bit_xor, bit_xor-bits, div-pow-suc, get_elem?,
  get_or, if◌then◌else◌, length, ltb, none, refl, some, suc, sym, true, zero, ℕ, ◌%◌, ◌*◌, ◌+◌, ◌-◌,
  ◌/◌, ◌<◌, ◌==◌, ◌^◌, ◌∙◌, ◌∷◌, ◌≡◌, ◌≤◌,
}
use native.Mathlib.Nat.{pow-suc, one-le-pow}
use openstint.Transponder.Rc3.{hard}
use openstint.Rc4.Message.{
  decode_bits, blocks_fit, gather, checks, check_bit, checks_pass, message_of_bits, rc4_message,
}

-- Blocks `b` on, `n` of them: four digits and the inverse of the fourth.
unfoldable pub spread : ℕ → ℕ → (ℕ → ℕ) → List ℕ
spread zero b g = []
spread (suc n) b g =
    g (b * 4)
    ∷ g (b * 4 + 1)
    ∷ g (b * 4 + 2)
    ∷ g (b * 4 + 3)
    ∷ (1 - g (b * 4 + 3))
    ∷ spread n (b + 1) g

-- The 80 digits: the payload's, then the check bits.
unfoldable pub digit : ℕ → ℕ → ℕ
digit p i =
    if ltb i 64
    then p / 2 ^ (63 - i) % 2
    else elim (get_elem? checks (i - 64)) [ none ↦ 0 | some c ↦ check_bit p c ]

unfoldable pub encode : ℕ → List ℕ
unfolding spread digit
encode p = spread 20 0 (digit p)

-- Differential encoding, a one as the soft bit 255.
unfoldable pub modulate : ℕ → List ℕ → List ℕ
modulate prev [] = []
modulate prev (b ∷ bits) = let raw = bit_xor b prev in raw * 255 ∷ modulate raw bits

digit-lt : (p i : ℕ) → digit p i < 2
unfolding digit
digit-lt p i = elim (get_elem? checks (i - 64)) [ none ↦ ground arith | some c ↦ ground arith ]

get_or-spread :
    (n b k : ℕ) (g : ℕ → ℕ) (r : ℕ)
    → k < n
    → r < 4
    → get_or (spread n b g) (k * 5 + r) 0 ≡ g ((b + k) * 4 + r)
unfolding spread
get_or-spread zero b k g r h q = absurd (omega arith)
get_or-spread (suc n) b zero g zero h q = ap g (omega arith)
get_or-spread (suc n) b zero g (suc zero) h q = ap g (omega arith)
get_or-spread (suc n) b zero g (suc (suc zero)) h q = ap g (omega arith)
get_or-spread (suc n) b zero g (suc (suc (suc zero))) h q = ap g (omega arith)
get_or-spread (suc n) b zero g (suc (suc (suc (suc r)))) h q = absurd (omega arith)
get_or-spread (suc n) b (suc k) g r h q =
    let index : suc k * 5 + r ≡ suc (suc (suc (suc (suc (k * 5 + r))))) = omega arith in
    rw index (get_or-spread n (b + 1) k g r (omega arith) q ∙ ap g (omega arith))

get_or-spread_inverse :
    (n b k : ℕ) (g : ℕ → ℕ) → k < n → get_or (spread n b g) (k * 5 + 4) 0 ≡ 1 - g ((b + k) * 4 + 3)
unfolding spread
get_or-spread_inverse zero b k g h = absurd (omega arith)
get_or-spread_inverse (suc n) b zero g h = ap (λ (i : ℕ). 1 - g i) (omega arith)
get_or-spread_inverse (suc n) b (suc k) g h =
    let index : suc k * 5 + 4 ≡ suc (suc (suc (suc (suc (k * 5 + 4))))) = omega arith in
    rw index
      (get_or-spread_inverse n (b + 1) k g (omega arith) ∙ ap (λ (i : ℕ). 1 - g i) (omega arith))

blocks_fit-spread :
    (n k : ℕ) (g : ℕ → ℕ) → ((i : ℕ) → g i < 2) → n + k ≤ 20 → blocks_fit n k (spread 20 0 g) ≡ true
unfolding blocks_fit
blocks_fit-spread zero k g small h = refl
blocks_fit-spread (suc n) k g small h = ground (
  arith,
  get_or-spread 20 0 k g 3 (omega arith) (omega arith),
  get_or-spread_inverse 20 0 k g (omega arith),
  small (k * 4 + 3),
  blocks_fit-spread n (k + 1) g small (omega arith),
)

split_last : (a c : ℕ) → a * c ≡ a / 2 * (c * 2) + a % 2 * c
split_last a c =
    let parts : a ≡ a / 2 * 2 + a % 2 = omega arith in omega (arith, ap (λ (x : ℕ). x * c) parts)

-- One more digit of `p` below its leading ones.
add_digit :
    (k p : ℕ)
    → (if p / 2 ^ k % 2 == 0
        then p / 2 ^ suc k * 2 ^ suc k
        else bit_or (p / 2 ^ suc k * 2 ^ suc k) (2 ^ k))
      ≡ p / 2 ^ k * 2 ^ k
add_digit k p =
    let double : 2 ^ suc k ≡ 2 ^ k * 2 = omega (arith, pow-suc 2 k) in
    ground (
      arith,
      div-pow-suc k p,
      ap (λ x. p / 2 ^ k / 2 * x) double,
      ap (λ x. x * 2 ^ suc k) (div-pow-suc k p),
      split_last (p / 2 ^ k) (2 ^ k),
      bit_or_fields (suc k) (p / 2 ^ suc k) (2 ^ k) (omega (arith, double, one-le-pow k 2)),
    )

gather-spread :
    (n i p : ℕ) (g : ℕ → ℕ)
    → n + i ≡ 64
    → ((j : ℕ) → j < 64 → g j ≡ p / 2 ^ (63 - j) % 2)
    → gather n i (spread 20 0 g) (p / 2 ^ n * 2 ^ n) ≡ p
unfolding gather
gather-spread zero i p g h digits = omega arith
gather-spread (suc n) i p g h digits =
    let place : (0 + i / 4) * 4 + i % 4 ≡ i = omega arith in
    let exponent : 63 - i ≡ n = omega arith in
    let read : get_or (spread 20 0 g) (i / 4 * 5 + i % 4) 0 ≡ p / 2 ^ n % 2 =
      get_or-spread 20 0 (i / 4) g (i % 4) (omega arith) (omega arith)
      ∙ ap g place
      ∙ digits i (omega arith)
      ∙ ap (λ k. p / 2 ^ k % 2) exponent in
    rw (read, exponent, add_digit n p) (gather-spread n (i + 1) p g (omega arith) digits)

digit-payload : (p j : ℕ) → j < 64 → digit p j ≡ p / 2 ^ (63 - j) % 2
unfolding digit
digit-payload p j h = ground arith

gather-encode : (p : ℕ) → p < 2 ^ 64 → gather 64 0 (encode p) 0 ≡ p
unfolding encode
gather-encode p h =
    ap (gather 64 0 (spread 20 0 (digit p))) (omega arith)
    ∙ gather-spread 64 0 p (digit p) refl (digit-payload p)

checks_pass-encode : (p : ℕ) → checks_pass checks p (encode p) ≡ true
unfolding checks_pass encode digit spread
checks_pass-encode p = ground arith

bit_xor_twice : (b prev : ℕ) → b < 2 → prev < 2 → bit_xor (bit_xor b prev) prev ≡ b
bit_xor_twice b prev h q =
    ground (arith, bit_xor-bits b prev h q, bit_xor-bits ((b + prev) % 2) prev (omega arith) q)

hard-soft : (r : ℕ) → r < 2 → hard (r * 255) ≡ r
hard-soft r h = ground arith

bit_xor-lt : (b prev : ℕ) → b < 2 → prev < 2 → bit_xor b prev < 2
bit_xor-lt b prev h q = omega (arith, bit_xor-bits b prev h q)

decode_bits-modulate :
    (bits : List ℕ) (prev : ℕ)
    → prev < 2
    → All (λ (b : ℕ). b < 2) bits
    → decode_bits (length bits) prev (modulate prev bits) ≡ some bits
unfolding decode_bits modulate
decode_bits-modulate [] prev h small = refl
decode_bits-modulate (b ∷ bits) prev h small = rw (
  hard-soft (bit_xor b prev) (bit_xor-lt b prev small.0 h),
  decode_bits-modulate bits (bit_xor b prev) (bit_xor-lt b prev small.0 h) small.1,
  hard-soft (bit_xor b prev) (bit_xor-lt b prev small.0 h),
  bit_xor_twice b prev small.0 h,
)

spread-small : (n b : ℕ) (g : ℕ → ℕ) → ((i : ℕ) → g i < 2) → All (λ (x : ℕ). x < 2) (spread n b g)
unfolding spread
spread-small zero b g small = tt
spread-small (suc n) b g small = (
  small (b * 4),
  (
    small (b * 4 + 1),
    (small (b * 4 + 2), (small (b * 4 + 3), (omega arith, spread-small n (b + 1) g small))),
  ),
)

length-spread : (n b : ℕ) (g : ℕ → ℕ) → length (spread n b g) ≡ n * 5
unfolding spread
length-spread zero b g = refl
length-spread (suc n) b g = omega (arith, length-spread n (b + 1) g)

blocks_fit-encode : (p : ℕ) → blocks_fit 20 0 (encode p) ≡ true
unfolding encode
blocks_fit-encode p = blocks_fit-spread 20 0 (digit p) (digit-lt p) (omega arith)

message_of_bits-encode :
    (p : ℕ) → p < 2 ^ 64 → message_of_bits (encode p) ≡ record { payload = p; is_valid = true }
unfolding message_of_bits
message_of_bits-encode p h =
    rw (message_of_bits, gather-encode p h, blocks_fit-encode p, checks_pass-encode p)

decode_bits-encode : (p : ℕ) → decode_bits 100 1 (modulate 1 (encode p)) ≡ some (encode p)
unfolding encode
decode_bits-encode p =
    ap (λ n. decode_bits n 1 (modulate 1 (encode p))) (sym (length-spread 20 0 (digit p)))
    ∙ decode_bits-modulate (encode p) 1 (omega arith) (spread-small 20 0 (digit p) (digit-lt p))

-- Each 64-bit payload that is encoded (four digits and an inverted copy of the fourth to a block,
-- then sixteen check digits) and sent differentially after a one is received as a valid message
-- with that payload.
pub rc4_message-encode :
    (p : ℕ)
    → p < 2 ^ 64
    → rc4_message (modulate 1 (encode p)) ≡ some (record { payload = p; is_valid = true })
unfolding rc4_message
rc4_message-encode p h =
    rw (rc4_message, decode_bits-encode p) (ap some (message_of_bits-encode p h))

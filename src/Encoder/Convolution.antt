-- ===== src/Encoder/Convolution.antt =====
-- That `conv_encode` of docs/fec-conv.c is the convolution of a message's bits with two polynomials of
-- seven digits: its shift register, with the mask of the trailing bits, is the last seven bits.
use native.Mathlib.Nat.{pow-suc}
use openstint.Base.{
  List, [], ap, ap₂, arith, bit_and, bit_and-zero, bit_and_mask, bit_and_step, bit_or,
  bit_or_fields, if◌then◌else◌, ones, refl, replicate, subst, suc, sym, zero, ℕ, ◌%◌, ◌*◌, ◌++◌,
  ◌+◌, ◌-◌, ◌/◌, ◌<◌, ◌==◌, ◌^◌, ◌∙◌, ◌∷◌, ◌≡◌,
}
use openstint.Encoder.{parity4, outputs, encode_byte, encode_bytes, trail, conv_encode}
use openstint.Encoder.Parity.{ones-plus, parity4-ones}

-- The bits before, the latest first; zeros came before the first one.
abbrev latest : List ℕ → ℕ
latest [] = 0
latest (b ∷ h) = b

abbrev earlier : List ℕ → List ℕ
earlier [] = []
earlier (b ∷ h) = h

-- The sum of the bits at which the polynomial has a one.
unfoldable pub taps : ℕ → ℕ → List ℕ → ℕ
taps zero poly h = 0
taps (suc k) poly h = (if poly % 2 == 0 then 0 else latest h) + taps k (poly / 2) (earlier h)

unfoldable pub convolve : ℕ → ℕ → List ℕ → List ℕ → List ℕ
convolve poly_a poly_b h [] = []
convolve poly_a poly_b h (b ∷ bits) =
    255 * (taps 7 poly_a (b ∷ h) % 2)
    ∷ 255 * (taps 7 poly_b (b ∷ h) % 2)
    ∷ convolve poly_a poly_b (b ∷ h) bits

-- The `n` lowest bits of a byte, the highest first, and those of a message.
unfoldable pub bits_from : ℕ → ℕ → List ℕ
bits_from zero byte = []
bits_from (suc n) byte = byte / 2 ^ n % 2 ∷ bits_from n byte

unfoldable pub bits_of : List ℕ → List ℕ
bits_of [] = []
bits_of (byte ∷ bytes) = bits_from 8 byte ++ bits_of bytes

-- The `k` lowest digits of the register are the latest bits.
abbrev Agrees : ℕ → ℕ → List ℕ → Type 0
Agrees zero x h = Unit
Agrees (suc k) x h = (x % 2 ≡ latest h) × Agrees k (x / 2) (earlier h)

ones-taps : (k x poly : ℕ) (h : List ℕ) → Agrees k x h → ones k (bit_and x poly) ≡ taps k poly h
unfolding ones taps
ones-taps zero x poly h a = refl
ones-taps (suc k) x poly h a =
    let step = bit_and_step x poly in
    let top : bit_and x poly / 2 ≡ bit_and (x / 2) (poly / 2) = omega (arith, step) in
    let rest = ones-taps k (x / 2) (poly / 2) (earlier h) a.1 in
    rw top (ground (arith, step, rest, a.0))

bit_and_below : (k x poly : ℕ) → poly < 2 ^ k → bit_and x poly < 2 ^ k
bit_and_below zero x poly h =
    let none_set : poly ≡ 0 = omega arith in rw none_set (omega (arith, bit_and-zero x))
bit_and_below (suc k) x poly h =
    let double : 2 ^ suc k ≡ 2 ^ k + 2 ^ k = omega (arith, pow-suc 2 k) in
    omega (
      arith,
      double,
      bit_and_step x poly,
      bit_and_below k (x / 2) (poly / 2) (omega (arith, double, h)),
    )

ones_zero : ones 25 0 ≡ 0
unfolding ones
ones_zero = refl

output_lem :
    (x poly : ℕ) (h : List ℕ)
    → poly < 128
    → Agrees 7 x h
    → (256 - parity4 (bit_and x poly)) % 256 ≡ 255 * (taps 7 poly h % 2)
output_lem x poly h small a =
    let y = bit_and x poly in
    let none_above : y / 2 ^ 7 ≡ 0 = omega (arith, bit_and_below 7 x poly small) in
    let above : ones 25 (y / 2 ^ 7) ≡ 0 = ap (ones 25) none_above ∙ ones_zero in
    omega (arith, parity4-ones y, ones-plus 7 25 y, above, ones-taps 7 x poly h a)

-- The register takes a bit.
Agrees-push :
    (shr b : ℕ) (h : List ℕ)
    → b < 2
    → Agrees 7 shr h
    → Agrees 7 (bit_or (shr * 2 % 2 ^ 32) b) (b ∷ h)
Agrees-push shr b h small a =
    let pushed : bit_or (shr % 2 ^ 31 * 2 ^ 1) b ≡ shr % 2 ^ 31 * 2 ^ 1 + b =
      bit_or_fields 1 (shr % 2 ^ 31) b small in
    let shifted : shr * 2 % 2 ^ 32 ≡ shr % 2 ^ 31 * 2 ^ 1 = omega arith in
    rw (shifted, pushed) (omega (arith, small, a))

-- The mask of the trailing bits keeps eleven digits, the lowest of them zero.
trail_mask : (y : ℕ) → bit_and y 0xffe ≡ y / 2 % 2048 * 2
trail_mask y = omega (arith, bit_and_step y 0xffe, bit_and_mask 11 (y / 2))

Agrees-trail :
    (shr : ℕ) (h : List ℕ) → Agrees 7 shr h → Agrees 7 (bit_and (shr * 2 % 2 ^ 32) 0xffe) (0 ∷ h)
Agrees-trail shr h a = rw (trail_mask (shr * 2 % 2 ^ 32)) (omega (arith, a))

-- What was before, once some bits have come.
unfoldable pub push_all : List ℕ → List ℕ → List ℕ
push_all h [] = h
push_all h (b ∷ bits) = push_all (b ∷ h) bits

push_all-append : (h xs ys : List ℕ) → push_all h (xs ++ ys) ≡ push_all (push_all h xs) ys
unfolding push_all
push_all-append h [] ys = refl
push_all-append h (x ∷ xs) ys = push_all-append (x ∷ h) xs ys

convolve-append :
    (poly_a poly_b : ℕ) (h xs ys : List ℕ)
    → convolve poly_a poly_b h (xs ++ ys)
      ≡ convolve poly_a poly_b h xs ++ convolve poly_a poly_b (push_all h xs) ys
unfolding convolve push_all
convolve-append poly_a poly_b h [] ys = refl
convolve-append poly_a poly_b h (x ∷ xs) ys =
    ap (λ t. 255 * (taps 7 poly_a (x ∷ h) % 2) ∷ 255 * (taps 7 poly_b (x ∷ h) % 2) ∷ t)
      (convolve-append poly_a poly_b (x ∷ h) xs ys)

module _ (poly_a poly_b : ℕ) (small_a : poly_a < 128) (small_b : poly_b < 128) where
  outputs-convolve :
      (shr b : ℕ) (h rest : List ℕ)
      → Agrees 7 shr (b ∷ h)
      → outputs poly_a poly_b shr ++ convolve poly_a poly_b (b ∷ h) rest
        ≡ convolve poly_a poly_b h (b ∷ rest)
  unfolding outputs convolve
  outputs-convolve shr b h rest a =
      ap₂ (λ x y. x ∷ y ∷ convolve poly_a poly_b (b ∷ h) rest)
        (output_lem shr poly_a (b ∷ h) small_a a) (output_lem shr poly_b (b ∷ h) small_b a)

  trail-convolve :
      (n shr : ℕ) (h : List ℕ)
      → Agrees 7 shr h
      → trail poly_a poly_b n shr ≡ convolve poly_a poly_b h (replicate n 0)
  unfolding trail convolve
  trail-convolve zero shr h a = refl
  trail-convolve (suc n) shr h a =
      let shr' = bit_and (shr * 2 % 2 ^ 32) 0xffe in
      let agree = Agrees-trail shr h a in
      ap (λ t. outputs poly_a poly_b shr' ++ t) (trail-convolve n shr' (0 ∷ h) agree)
      ∙ outputs-convolve shr' 0 h (replicate n 0) agree

  encode_byte-convolve :
      (n byte shr : ℕ) (h : List ℕ)
      → Agrees 7 shr h
      → ((encode_byte poly_a poly_b n byte shr).0 ≡ convolve poly_a poly_b h (bits_from n byte))
        × Agrees 7 (encode_byte poly_a poly_b n byte shr).1 (push_all h (bits_from n byte))
  unfolding encode_byte bits_from convolve push_all
  encode_byte-convolve zero byte shr h a = (refl, a)
  encode_byte-convolve (suc n) byte shr h a =
      let b = byte / 2 ^ n % 2 in
      let shr' = bit_or (shr * 2 % 2 ^ 32) b in
      let agree = Agrees-push shr b h (omega arith) a in
      let ih = encode_byte-convolve n byte shr' (b ∷ h) agree in
      (
        ap (λ t. outputs poly_a poly_b shr' ++ t) ih.0
            ∙ outputs-convolve shr' b h (bits_from n byte) agree,
        ih.1,
      )

  encode_bytes-convolve :
      (bytes : List ℕ) (shr : ℕ) (h : List ℕ)
      → Agrees 7 shr h
      → ((encode_bytes poly_a poly_b bytes shr).0 ≡ convolve poly_a poly_b h (bits_of bytes))
        × Agrees 7 (encode_bytes poly_a poly_b bytes shr).1 (push_all h (bits_of bytes))
  unfolding encode_bytes bits_of convolve push_all
  encode_bytes-convolve [] shr h a = (refl, a)
  encode_bytes-convolve (byte ∷ bytes) shr h a =
      let bits = bits_from 8 byte in
      let one = encode_byte-convolve 8 byte shr h a in
      let next = (encode_byte poly_a poly_b 8 byte shr).1 in
      let ih = encode_bytes-convolve bytes next (push_all h bits) one.1 in
      (
        ap₂ ◌++◌ one.0 ih.0 ∙ sym (convolve-append poly_a poly_b h bits (bits_of bytes)),
        subst (Agrees 7 (encode_bytes poly_a poly_b bytes next).1)
            (sym (push_all-append h bits (bits_of bytes))) ih.1,
      )

  -- For two polynomials of at most seven digits, the encoding is the convolution with them of the
  -- message's bits, the highest of each byte first, and eight zeros: each pair of bytes is 0 or 255
  -- by the parities of the last seven bits at the two polynomials' ones.
  pub conv_encode-convolve :
      (bytes : List ℕ)
      → conv_encode poly_a poly_b bytes ≡ convolve poly_a poly_b [] (bits_of bytes ++ replicate 8 0)
  unfolding conv_encode
  conv_encode-convolve bytes =
      let start : Agrees 7 0 [] = omega arith in
      let all = encode_bytes-convolve bytes 0 [] start in
      ap₂ ◌++◌ all.0 (
        trail-convolve 8 (encode_bytes poly_a poly_b bytes 0).1 (push_all [] (bits_of bytes)) all.1)
      ∙ sym (convolve-append poly_a poly_b [] (bits_of bytes) (replicate 8 0))

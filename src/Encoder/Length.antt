-- ===== src/Encoder/Length.antt =====
-- How much `conv_encode` of docs/fec-conv.c writes.
use openstint.Base.{
  List, [], arith, bit_and, bit_or, length, length-append, refl, suc, zero, ℕ, ◌%◌, ◌*◌, ◌++◌, ◌+◌,
  ◌/◌, ◌^◌, ◌∷◌, ◌≡◌,
}
use openstint.Encoder.{outputs, encode_byte, encode_bytes, trail, conv_encode}

module _ (poly_a poly_b : ℕ) where
  length-outputs :
      (shr : ℕ) (rest : List ℕ) → length (outputs poly_a poly_b shr ++ rest) ≡ 2 + length rest
  unfolding outputs
  length-outputs shr rest = omega arith

  length-encode_byte : (n byte shr : ℕ) → length (encode_byte poly_a poly_b n byte shr).0 ≡ 2 * n
  unfolding encode_byte
  length-encode_byte zero byte shr = refl
  length-encode_byte (suc n) byte shr =
      let shr' = bit_or (shr * 2 % 2 ^ 32) (byte / 2 ^ n % 2) in
      let rest = encode_byte poly_a poly_b n byte shr' in
      omega (arith, length-outputs shr' rest.0, length-encode_byte n byte shr')

  length-encode_bytes :
      (bytes : List ℕ) (shr : ℕ)
      → length (encode_bytes poly_a poly_b bytes shr).0 ≡ 16 * length bytes
  unfolding encode_bytes
  length-encode_bytes [] shr = refl
  length-encode_bytes (byte ∷ bytes) shr =
      let (out, next) = encode_byte poly_a poly_b 8 byte shr in
      let rest = encode_bytes poly_a poly_b bytes next in
      omega (
        arith,
        length-append out rest.0,
        length-encode_byte 8 byte shr,
        length-encode_bytes bytes next,
      )

  length-trail : (n shr : ℕ) → length (trail poly_a poly_b n shr) ≡ 2 * n
  unfolding trail
  length-trail zero shr = refl
  length-trail (suc n) shr =
      let shr' = bit_and (shr * 2 % 2 ^ 32) 0xffe in
      omega (arith, length-outputs shr' (trail poly_a poly_b n shr'), length-trail n shr')

  -- Encoding bytes writes two for each bit of them and sixteen behind: eighty for the four bytes of
  -- a message, whatever the polynomials are.
  pub length-conv_encode :
      (bytes : List ℕ) → length (conv_encode poly_a poly_b bytes) ≡ 16 * length bytes + 16
  unfolding conv_encode
  length-conv_encode bytes =
      let (out, shr) = encode_bytes poly_a poly_b bytes 0 in
      omega (
        arith,
        length-append out (trail poly_a poly_b 8 shr),
        length-encode_bytes bytes 0,
        length-trail 8 shr,
      )

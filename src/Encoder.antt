-- ===== src/Encoder.antt =====
-- `conv_encode` of docs/fec-conv.c, a convolutional encoder in a simulation. The polynomials are
-- libfec's; an output byte is 0 or 255.
pub mod Parity
pub mod Length
pub mod Convolution
use openstint.Base.{
  List, [], bit_and, bit_or, bit_xor, suc, zero, ℕ, ◌%◌, ◌*◌, ◌++◌, ◌-◌, ◌/◌, ◌^◌, ◌∷◌,
}

-- `parity1`, on a byte, and `parity4`, on a word.
unfoldable pub parity1 : ℕ → ℕ
parity1 x = 0x6996 / 2 ^ bit_and (bit_xor x (x / 16)) 15 % 2

unfoldable pub parity4 : ℕ → ℕ
unfolding parity1
parity4 v = let half = bit_xor v (v / 65536) in parity1 (bit_xor half (half / 256) % 256)

module _ (poly_a poly_b : ℕ) where
  -- The two bytes for a register.
  unfoldable pub outputs : ℕ → List ℕ
  outputs shr =
      (256 - parity4 (bit_and shr poly_a)) % 256 ∷ (256 - parity4 (bit_and shr poly_b)) % 256 ∷ []

  -- The `n` lowest bits of a byte, the highest first, with the register behind them.
  unfoldable pub encode_byte : ℕ → ℕ → ℕ → List ℕ × ℕ
  encode_byte zero byte shr = ([], shr)
  encode_byte (suc n) byte shr =
      let shr' = bit_or (shr * 2 % 2 ^ 32) (byte / 2 ^ n % 2) in
      let (out, last) = encode_byte n byte shr' in (outputs shr' ++ out, last)

  unfoldable pub encode_bytes : List ℕ → ℕ → List ℕ × ℕ
  encode_bytes [] shr = ([], shr)
  encode_bytes (byte ∷ bytes) shr =
      let (out, next) = encode_byte 8 byte shr in
      let (rest, last) = encode_bytes bytes next in (out ++ rest, last)

  -- The trailing bits.
  unfoldable pub trail : ℕ → ℕ → List ℕ
  trail zero shr = []
  trail (suc n) shr = let shr' = bit_and (shr * 2 % 2 ^ 32) 0xffe in outputs shr' ++ trail n shr'

  unfoldable pub conv_encode : List ℕ → List ℕ
  conv_encode bytes = let (out, shr) = encode_bytes bytes 0 in out ++ trail 8 shr

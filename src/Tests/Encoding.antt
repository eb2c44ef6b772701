-- ===== src/Tests/Encoding.antt =====
-- Tests of the encoder: the four bytes of a message, with two polynomials of seven digits.
use openstint.Base.{List, [], arith, length, refl, replicate, ℕ, ◌++◌, ◌∷◌, ◌≡◌}
use openstint.Encoder.{parity1, parity4, outputs, encode_byte, conv_encode}
use openstint.Encoder.Convolution.{convolve, bits_of, conv_encode-convolve}
use openstint.Encoder.Length.{length-conv_encode}

abbrev message : List ℕ
message = 0x12 ∷ 0x34 ∷ 0x56 ∷ 0x78 ∷ []

length-conv_encode_example : length (conv_encode 0x6d 0x4f message) ≡ 80
length-conv_encode_example = length-conv_encode 0x6d 0x4f message

conv_encode-convolve_example :
    conv_encode 0x6d 0x4f message ≡ convolve 0x6d 0x4f [] (bits_of message ++ replicate 8 0)
conv_encode-convolve_example = conv_encode-convolve 0x6d 0x4f (omega arith) (omega arith) message

-- A one and seven zeros give the digits of the polynomials, the lowest first.
impulse :
    (encode_byte 0x6d 0x4f 8 128 0).0
    ≡ 255 ∷ 255 ∷ 0 ∷ 255 ∷ 255 ∷ 255 ∷ 255 ∷ 255 ∷ 0 ∷ 0 ∷ 255 ∷ 0 ∷ 255 ∷ 255 ∷ 0 ∷ 0 ∷ []
unfolding encode_byte outputs parity4 parity1
impulse = refl

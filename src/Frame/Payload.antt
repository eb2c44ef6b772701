-- ===== src/Frame/Payload.antt =====
-- What `bits` hands to the decoders.
use openstint.Base.{
  Bool-cases, List, Option, arith, inl, inr, length, length-drop, ltb, none, some, ℕ, ◌+◌, ◌≤◌,
}
use openstint.Float.{Float}
use openstint.Frame.{Frame, payload_at, bits_inverted, bits_found, bits, invert, concat_bits32}

module _ (F : Float) where
  -- A payload, if there is one, has at least the bits that the protocol announces.
  abbrev pub Enough : ℕ → Option (List ℕ) → Type 0
  Enough n none = Unit {0}
  Enough n (some payload) = n ≤ length payload

  payload_at-Enough : (pos : ℕ) (f : Frame F) → Enough f.payload_size (payload_at F pos f)
  unfolding payload_at
  payload_at-Enough pos f =
      elim (Bool-cases (ltb (length f.softbits) (pos + f.preamble_size + f.payload_size))) [
        | inl short ↦ rw short tt
        | inr long ↦ rw long (ground (arith, length-drop (pos + f.preamble_size) f.softbits))
      ]

  bits_inverted-Enough :
      (o : Option ℕ) (f : Frame F) → Enough f.payload_size (bits_inverted F o f).0
  unfolding bits_inverted
  bits_inverted-Enough none f = tt
  bits_inverted-Enough (some pos) f =
      payload_at-Enough pos (record f { softbits = invert f.softbits })

  bits_found-Enough :
      (o : Option ℕ) (sof : ℕ) (f : Frame F) → Enough f.payload_size (bits_found F o sof f).0
  unfolding bits_found
  bits_found-Enough none sof f = bits_inverted-Enough _ f
  bits_found-Enough (some pos) sof f = payload_at-Enough pos f

  -- `bits` never points to fewer soft bits than the payload has, so that a decoder that reads the
  -- payload reads nothing past the frame's bits.
  pub bits-Enough : (f : Frame F) → Enough f.payload_size (bits F f).0
  unfolding bits
  bits-Enough f = elim (Bool-cases (ltb (length f.softbits) 32)) [
    | inl short ↦ rw short tt
    | inr long ↦ rw long (bits_found-Enough _ (concat_bits32 f.softbits) f)
  ]

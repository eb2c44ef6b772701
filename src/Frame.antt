-- ===== src/Frame.antt =====
-- `Frame` of src/frame.hpp and src/frame.cpp: the soft bits of a received frame, and how the payload is
-- found behind its preamble.
pub mod Preamble
pub mod Payload
pub mod Phase
use openstint.Base.{
  Bool, List, Option, [], bit_and, bit_or, bit_xor, drop, if◌then◌else◌, leb, length, ltb, map,
  none, popcount, some, suc, zero, ℕ, ◌%◌, ◌*◌, ◌+◌, ◌-◌, ◌/◌, ◌==◌, ◌^◌, ◌∷◌,
}
use openstint.Float.{Float}
use openstint.Transponder.{TransponderProtocol, transponder_props}

module _ (F : Float) where
  open F use {R, lit, add, sub, mul, div, log10, of_ℕ}

  pub record Frame : Type 0 where
    pub transponder_protocol : TransponderProtocol
    pub preamble_size : ℕ
    pub payload_size : ℕ
    pub preamble_metric : R
    pub softbits : List ℕ
    pub symbols : List (R × R)
    pub evm_sum : R
    pub timestamp : ℕ
    pub timecode : ℕ
    pub symbol_scale : R
    pub phase : R
    pub phase_per_symbol : R

  -- `Frame(transponder_protocol, preamble_metric, timestamp, timecode)`
  unfoldable pub new_frame : TransponderProtocol → R → ℕ → ℕ → Frame
  new_frame protocol metric ts tc = record {
    transponder_protocol = protocol;
    preamble_size = 16;
    payload_size = (transponder_props protocol).payload_size;
    preamble_metric = metric;
    softbits = [];
    symbols = [];
    evm_sum = lit 0 0;
    timestamp = ts;
    timecode = tc;
    symbol_scale = lit 0 0;
    phase = lit 0 0;
    phase_per_symbol = lit 0 0;
  }

  unfoldable pub symbol_magnitude : Frame → R
  symbol_magnitude f = div (lit 1 0) f.symbol_scale

  unfoldable pub rssi : Frame → R
  unfolding symbol_magnitude
  rssi f = sub (mul (lit 20 0) (log10 (symbol_magnitude f))) (mul (lit 20 0) (log10 (lit 179 0)))

  unfoldable pub evm : Frame → R
  evm f = div f.evm_sum (of_ℕ (f.payload_size + f.preamble_size + 3))

-- The first 32 bits as a `uint32_t`, by a loop with `n` rounds left.
unfoldable pub concat_bits : ℕ → ℕ → List ℕ → ℕ
concat_bits zero v soft = v
concat_bits (suc n) v [] = v
concat_bits (suc n) v (s ∷ soft) =
    let shifted = v * 2 % 2 ^ 32 in
    concat_bits n (if bit_and s 0x80 == 0 then shifted else bit_or shifted 1) soft

unfoldable pub concat_bits32 : List ℕ → ℕ
concat_bits32 soft = concat_bits 32 0 soft

-- `popcount((sof & mask) ^ pp) <= PREAMBLE_MAX_BIT_ERRORS`
unfoldable pub preamble_fits : ℕ → ℕ → Bool
preamble_fits sof preamble = leb (popcount (bit_xor (bit_and sof 0xffff) preamble)) 2

-- Rounds `i` to 16 of the loop of `preamble_pos`, of which `n` are left; `none` is -1.
unfoldable pub search_preamble : ℕ → ℕ → ℕ → ℕ → Option ℕ
unfolding preamble_fits
search_preamble zero i sof preamble = none
search_preamble (suc n) i sof preamble =
    let rest = search_preamble n (i + 1) (sof / 2) preamble in
    if preamble_fits sof preamble then some (32 - 16 - i) else rest

unfoldable pub preamble_pos : ℕ → ℕ → Option ℕ
preamble_pos sof preamble = search_preamble 17 0 sof preamble

-- `0xff - x` for each soft bit.
abbrev pub invert : List ℕ → List ℕ
invert = map λ x. 255 - x

module _ (F : Float) where
  -- The size check and the pointer past the preamble, as the bits that it points to.
  unfoldable pub payload_at : ℕ → Frame F → Option (List ℕ)
  payload_at pos f =
      if ltb (length f.softbits) (pos + f.preamble_size + f.payload_size)
      then none
      else some (drop (pos + f.preamble_size) f.softbits)

  -- The second search, on the inverted bits, which also turns the frame's bits round.
  unfoldable pub bits_inverted : Option ℕ → Frame F → Option (List ℕ) × Frame F
  bits_inverted none f = (none, f)
  bits_inverted (some pos) f =
      let f' = record f { softbits = invert f.softbits } in (payload_at pos f', f')

  unfoldable pub bits_found : Option ℕ → ℕ → Frame F → Option (List ℕ) × Frame F
  bits_found none sof f =
      bits_inverted
        (preamble_pos (2 ^ 32 - 1 - sof) (transponder_props f.transponder_protocol).preamble) f
  bits_found (some pos) sof f = (payload_at pos f, f)

  -- `bits`: the payload's soft bits, or none for `nullptr`, beside the frame.
  unfoldable pub bits : Frame F → Option (List ℕ) × Frame F
  bits f =
      let sof = concat_bits32 f.softbits in
      if ltb (length f.softbits) 32
      then (none, f)
      else bits_found (preamble_pos sof (transponder_props f.transponder_protocol).preamble) sof f

-- ===== src/Transponder.antt =====
-- The transponder protocols: src/transponder.hpp and src/transponder.cpp. Here the table of the
-- protocols and `decode_openstint`; the children have `decode_rc3` and the block-list.
pub mod Rc3
pub mod Blacklist
use openstint.Base.{
  Bool, List, [], bit_and, bit_or, get_or, negb, replicate, suc, take, zero, ℕ, ◌*◌, ◌++◌, ◌==◌,
  ◌^◌, ◌∷◌,
}

pub data TransponderProtocol : Type 0 where
  open_stint rc3 rc4 : TransponderProtocol

abbrev pub preamble_length : ℕ
preamble_length = 16

-- `TransponderProps` without the symbol tables, which are computed from the words.
pub record TransponderProps : Type 0 where
  pub dpsk_preamble : ℕ
  pub preamble : ℕ
  pub payload_size : ℕ

abbrev pub transponder_props : TransponderProtocol → TransponderProps
transponder_props open_stint = record {
  dpsk_preamble = 0x857c;
  preamble = 0xf9a8;
  payload_size = 80;
}
transponder_props rc3 = record { dpsk_preamble = 0x7916; preamble = 0x51e4; payload_size = 80 }
transponder_props rc4 = record { dpsk_preamble = 0xc0ab; preamble = 0x80cd; payload_size = 100 }

-- libfec's Viterbi decoder over the first 80 soft bits, and liquid's CRC check of three bytes
-- against a key.
pub record Codec : Type 0 where
  pub viterbi29 : List ℕ → List ℕ
  pub crc_valid : List ℕ → ℕ → Bool

-- The id, beside what `crc_validate_message` says of it.
unfoldable pub decode_openstint : Codec → List ℕ → ℕ × Bool
decode_openstint codec softbits =
    let decoded = codec.viterbi29 (take 80 softbits) in
    let d0 = get_or decoded 0 0 in
    let d1 = get_or decoded 1 0 in
    let d2 = get_or decoded 2 0 in
    (
      bit_or (bit_or (d0 * 2 ^ 16) (d1 * 2 ^ 8)) d2,
      codec.crc_valid (d0 ∷ d1 ∷ d2 ∷ []) (get_or decoded 3 0),
    )

-- The preamble's symbols, the most significant bit first: `true` is +1, `false` is -1.
unfoldable pub symbols_from : ℕ → ℕ → List Bool
symbols_from zero word = []
symbols_from (suc n) word = negb (bit_and word (2 ^ n) == 0) ∷ symbols_from n word

unfoldable pub preamble_symbols : ℕ → List Bool
unfolding symbols_from
preamble_symbols word = symbols_from preamble_length word

-- Each symbol, `samples_per_symbol` times.
unfoldable pub upsample : ℕ → List Bool → List Bool
upsample sps [] = []
upsample sps (s ∷ syms) = replicate sps s ++ upsample sps syms

unfoldable pub preamble_upsampled : ℕ → ℕ → List Bool
unfolding preamble_symbols upsample
preamble_upsampled sps word = upsample sps (preamble_symbols word)

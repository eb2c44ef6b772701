-- ===== src/Rc4/Message.antt =====
-- `RC4Message` of src/rc4.cpp: the differential decoding of the soft bits, the parity of the blocks,
-- the payload, and the sixteen check bits.
pub mod Roundtrip
use openstint.Base.{
  Bool, List, Option, [], bit_and, bit_or, bit_xor, get_or, if◌then◌else◌, negb, none, popcount,
  some, suc, true, zero, ℕ, ◌%◌, ◌&&◌, ◌*◌, ◌+◌, ◌-◌, ◌/◌, ◌==◌, ◌^◌, ◌∷◌,
}
use openstint.Transponder.Rc3.{hard}

pub record Rc4Message : Type 0 where
  pub payload : ℕ
  pub is_valid : Bool

-- The first loop, with `n` rounds left; `none` is a read past the end.
unfoldable pub decode_bits : ℕ → ℕ → List ℕ → Option (List ℕ)
decode_bits zero prev soft = some []
decode_bits (suc n) prev [] = none
decode_bits (suc n) prev (s ∷ soft) =
    let raw = hard s in
    elim (decode_bits n raw soft) [ none ↦ none | some bits ↦ some (bit_xor raw prev ∷ bits) ]

-- The parity check of the blocks from `block` on, `n` of them: the fifth bit is the inverse of the
-- fourth.
unfoldable pub blocks_fit : ℕ → ℕ → List ℕ → Bool
blocks_fit zero block bits = true
blocks_fit (suc n) block bits =
    negb (get_or bits (block * 5 + 3) 0 == get_or bits (block * 5 + 4) 0)
    && blocks_fit n (block + 1) bits

-- The two loops that collect the payload, as one: `i` is `payload_idx`, `n` rounds are left.
unfoldable pub gather : ℕ → ℕ → List ℕ → ℕ → ℕ
gather zero i bits payload = payload
gather (suc n) i bits payload =
    gather n (i + 1) bits
      (if get_or bits (i / 4 * 5 + i % 4) 0 == 0 then payload else bit_or payload (2 ^ (63 - i)))

pub record Check : Type 0 where
  pub poly : ℕ
  pub constant : ℕ
  pub parity_pos : ℕ

abbrev pub check_at : ℕ → ℕ → ℕ → Check
check_at p c i = record { poly = p; constant = c; parity_pos = i }

-- `check_polys`, `check_constants` and `parity_pos`, row by row.
abbrev pub checks : List Check
checks =
    check_at 0xc2cd82058e2c0c88 0 80
    ∷ check_at 0xe166c102c7160644 0 81
    ∷ check_at 0xf0b36081638b0322 1 82
    ∷ check_at 0xf859b040b1c58191 1 83
    ∷ check_at 0xbee15a25d6cecc40 0 85
    ∷ check_at 0xdf70ad12eb676620 0 86
    ∷ check_at 0x6fb8568975b3b310 0 87
    ∷ check_at 0xb7dc2b44bad9d988 1 88
    ∷ check_at 0xdbee15a25d6cecc4 0 90
    ∷ check_at 0x6df70ad12eb67662 0 91
    ∷ check_at 0x36fb8568975b3b31 1 92
    ∷ check_at 0x59b040b1c5819110 1 93
    ∷ check_at 0x2cd82058e2c0c888 1 95
    ∷ check_at 0x166c102c71606444 1 96
    ∷ check_at 0x0b36081638b03222 1 97
    ∷ check_at 0x859b040b1c581911 0 98
    ∷ []

abbrev pub check_bit : ℕ → Check → ℕ
check_bit payload c = (popcount (bit_and payload c.poly) + c.constant) % 2

unfoldable pub checks_pass : List Check → ℕ → List ℕ → Bool
checks_pass [] payload bits = true
checks_pass (c ∷ cs) payload bits =
    (check_bit payload c == get_or bits c.parity_pos 0) && checks_pass cs payload bits

unfoldable pub message_of_bits : List ℕ → Rc4Message
message_of_bits bits =
    let payload = gather 64 0 bits 0 in
    record { payload = payload; is_valid = blocks_fit 20 0 bits && checks_pass checks payload bits }

-- The constructor `RC4Message(softbits)`.
unfoldable pub rc4_message : List ℕ → Option Rc4Message
rc4_message softbits = elim (decode_bits 100 1 softbits) [
  | none ↦ none
  | some bits ↦ some (message_of_bits bits)
]

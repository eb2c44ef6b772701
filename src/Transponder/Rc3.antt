-- ===== src/Transponder/Rc3.antt =====
-- `decode_rc3` of src/transponder.cpp: differential decoding, the inverse of the convolutional code
-- with its makeshift correction, and the unscrambling of the message.
pub mod Code
pub mod Rounds
pub mod Correct
pub mod Decode
pub mod Message
pub mod Laws
use openstint.Base.{
  Bool, List, Option, [], bit_and, bit_or, bit_xor, if◌then◌else◌, ltb, none, popcount, some, suc,
  sym, true, zero, ℕ, ◌%◌, ◌*◌, ◌+◌, ◌/◌, ◌==◌, ◌^◌, ◌∷◌,
}

-- `softbits[i] > 127 ? 1 : 0`
abbrev pub hard : ℕ → ℕ
hard soft = if ltb 127 soft then 1 else 0

abbrev pub code_mask : ℕ
code_mask = 0xEEC20C

pub record Reader : Type 0 where
  pub shreg : ℕ
  pub last_ok : Bool
  pub prev_sym : ℕ

-- The `if (last_ok)` of the loop and the shift after it: the new register and `last_ok`. `p` is
-- the parity of the register, `b0` and `b1` are the two decoded bits.
unfoldable pub correct : ℕ → Bool → ℕ → ℕ → ℕ → ℕ × Bool
correct shreg last_ok p b0 b1 =
    let shreg1 = (if bit_and shreg 2 == 0 then 0 else 1) in
    let shreg0p0 = bit_xor (bit_xor p shreg1) b0 in
    let shreg0p1 = bit_xor p b1 in
    let shreg1p = bit_xor b0 b1 in
    let same = shreg0p0 == shreg0p1 in
    if last_ok
    then ((if same then bit_or shreg shreg0p0 else shreg) * 2 % 2 ^ 64, same)
    else (bit_or shreg (bit_or (shreg1p * 2) shreg0p1) * 2 % 2 ^ 64, true)

-- One round, over `softbits[i]` and `softbits[i + 1]`.
unfoldable pub read_pair : ℕ → ℕ → Reader → Reader
unfolding correct
read_pair soft0 soft1 r =
    let p = popcount (bit_and r.shreg code_mask) % 2 in
    let sym = hard soft0 in
    let next_sym = hard soft1 in
    let b0 = bit_xor sym r.prev_sym in
    let b1 = bit_xor next_sym sym in
    let (shreg, ok) = correct r.shreg r.last_ok p b0 b1 in
    record { shreg = shreg; last_ok = ok; prev_sym = next_sym }

-- `n` rounds; `none` is a read past the end of the bits.
unfoldable pub read_pairs : ℕ → List ℕ → Reader → Option Reader
unfolding read_pair
read_pairs zero softbits r = some r
read_pairs (suc n) [] r = none
read_pairs (suc n) (s0 ∷ []) r = none
read_pairs (suc n) (s0 ∷ s1 ∷ softbits) r = read_pairs n softbits (read_pair s0 s1 r)

-- Rounds `i` to `i + n - 1` of the last loop: every fourth bit is a status bit, the others are
-- shifted into the id.
unfoldable pub unscramble : ℕ → ℕ → ℕ → ℕ → ℕ → ℕ × ℕ
unscramble zero i message tid status = (tid, status)
unscramble (suc n) i message tid status =
    let bit : ℕ = (if bit_and message (2 ^ i) == 0 then 0 else 1) in
    let keep = i % 4 == 0 in
    unscramble n (i + 1) message (if keep then tid else bit_or (tid * 2 % 2 ^ 32) bit)
      (if keep then bit_or (status * 2) bit % 2 ^ 8 else status)

pub record Rc3Result : Type 0 where
  pub transponder_id : ℕ
  pub status_code : ℕ
  pub ok : Bool

unfoldable pub finish : ℕ → Rc3Result
finish shreg =
    let word = shreg / 2 in
    let trail = bit_and word 0xff in
    let message = bit_and (word / 2 ^ 8) 0xffffffff in
    let (tid, status) = unscramble 32 0 message 0 0 in
    record { transponder_id = tid; status_code = status; ok = trail == 0 }

unfoldable pub decode_rc3 : List ℕ → Option Rc3Result
decode_rc3 softbits =
    elim (read_pairs 40 softbits (record { shreg = 0; last_ok = true; prev_sym = 0 })) [
      | none ↦ none
      | some r ↦ some (finish r.shreg)
    ]

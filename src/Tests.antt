-- ===== src/Tests.antt =====
-- Concrete data for the tests: numbers, frames and messages. The children have the tests.
mod Signal
mod Sampling
mod Decoding
mod Encoding
mod Detecting
mod Training
mod Receiving
mod Buffers
mod Files
mod Sessions
mod Interleaving
mod Restarting
use openstint.Base.{
  List, [], if◌then◌else◌, negb, suc, take, true, zero, ℕ, ◌%◌, ◌/◌, ◌==◌, ◌^◌, ◌∷◌,
}
use openstint.Base.Int.{ℤ, pos, negsuc, ◌+ℤ◌, ◌-ℤ◌, ◌*ℤ◌, ltb_ℤ, quot, pos_part, neg_part}
use openstint.Float.{Float}
use openstint.Transponder.{Codec, TransponderProtocol, open_stint, rc3, rc4}
use openstint.Frame.{Frame, new_frame}

-- Whole numbers in place of floating-point ones.
abbrev pub whole : Float
whole = record {
  R = ℤ;
  lt = ltb_ℤ;
  le = λ a b. negb (ltb_ℤ b a);
  add = ◌+ℤ◌;
  sub = ◌-ℤ◌;
  mul = ◌*ℤ◌;
  div = λ a b. quot a (pos_part b);
  neg = λ a. pos 0 -ℤ a;
  lit = λ m e. pos (m / 10 ^ e);
  of_ℕ = pos;
  to_ℕ = pos_part;
  pow10 = λ a. pos (10 ^ pos_part a);
  log10 = λ a. a;
}

-- A filter that leaves the samples as they are.
abbrev pub keep : List ℤ → List ℤ → List ℤ
keep taps samples = samples

abbrev pub rate : ℕ
rate = 5000000

-- The first four bytes of the soft bits as decoded, and a check that every key passes.
abbrev pub echo : Codec
echo = record { viterbi29 = λ soft. take 4 soft; crc_valid = λ message key. true }

-- The `n` low bits of a word as soft bits, the highest first.
abbrev pub soft_word : ℕ → ℕ → List ℕ
soft_word zero w = []
soft_word (suc n) w = (if w / 2 ^ n % 2 == 0 then 10 else 240) ∷ soft_word n w

abbrev pub frame_of : TransponderProtocol → List ℕ → Frame whole
frame_of protocol soft = record (new_frame whole protocol (pos 1) 1000 5000) { softbits = soft }

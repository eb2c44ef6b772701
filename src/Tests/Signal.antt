-- ===== src/Tests/Signal.antt =====
-- Tests of the correlator, the frame's bits, the waveform and the passing point.
use openstint.Base.{List, [], arith, drop, popcount, refl, some, ◌++◌, ◌+◌, ◌∷◌, ◌≡◌, ◌≤◌, ℕ_key}
use openstint.Base.Int.{abs_ℕ, quot, ◌+ℤ◌, ◌*ℤ◌, ◌-ℤ◌, ℤ, pos, negsuc}
use openstint.Correlator.{CircBuff, push, dot, dot_product, pattern_row, square32}
use openstint.Correlator.Window.{IsValid, window, push-window, sum}
use openstint.Correlator.Rotation.{dot-window}
use openstint.Transponder.{open_stint}
use openstint.Frame.{
  Frame, new_frame, bits, preamble_pos, search_preamble, concat_bits, concat_bits32,
}
use openstint.Frame.Preamble.{IsLast, preamble_pos-IsLast}
use openstint.Frame.Phase.{turned, bits-turned}
use openstint.Correlator.Square.{matches_exactly, match_preamble-exact}
use openstint.Correlator.{match_preamble}
use openstint.Passing.Waveform.{advance}
use openstint.Passing.Waveform.Interpolation.{IsBracket, advance-IsBracket}
use openstint.Passing.Point.{between, timecode_to_usec}
use openstint.Passing.Point.Bounds.{between-bounds}
use openstint.Tests.{whole, keep, rate, soft_word, frame_of}

-- Fifteen symbols after a write at the position 14: the next one goes to 15.
abbrev received : CircBuff
received = record {
  phase = 15;
  buff =
      pos 5
      ∷ pos 6
      ∷ negsuc 7
      ∷ pos 1
      ∷ pos 2
      ∷ pos 3
      ∷ negsuc 4
      ∷ pos 5
      ∷ pos 6
      ∷ pos 7
      ∷ pos 8
      ∷ negsuc 9
      ∷ pos 3
      ∷ pos 2
      ∷ pos 1
      ∷ pos 9
      ∷ [];
  buff_e = 25 ∷ 36 ∷ 64 ∷ 1 ∷ 4 ∷ 9 ∷ 25 ∷ 25 ∷ 36 ∷ 49 ∷ 64 ∷ 100 ∷ 9 ∷ 4 ∷ 1 ∷ 81 ∷ [];
  window_energy = 533;
}

received-IsValid : IsValid received
unfolding sum
received-IsValid = record {
  phase_in = omega arith;
  symbols = refl;
  energies = refl;
  small = omega arith;
  summed = refl;
}

push-window_example :
    let c = push (pos 4) 16 received in
    (window c.phase c.buff ≡ drop 1 (window 15 received.buff) ++ pos 4 ∷ [])
    × (window c.phase c.buff_e ≡ drop 1 (window 15 received.buff_e) ++ 16 ∷ [])
push-window_example = push-window (pos 4) 16 received received-IsValid

dot-window_example :
    dot 0x7916 received.buff 15 ≡ dot_product (window 15 received.buff) (pattern_row 16 0x7916)
dot-window_example = dot-window 0x7916 received received-IsValid

received_quarter :
    abs_ℕ (quot (dot_product (window 15 received.buff) (pattern_row 16 0x7916)) 4) ≡ 2
unfolding dot_product pattern_row ◌+ℤ◌ ◌*ℤ◌
received_quarter = refl

match_preamble-exact_example :
    match_preamble whole 0x7916 (pos 1) received
    ≡ matches_exactly whole 0x7916 (pos 1) (window 15 received.buff) (sum received.buff_e)
match_preamble-exact_example =
    match_preamble-exact whole 0x7916 (pos 1) received received-IsValid
      (omega (arith, received_quarter))

-- The correlation of sixteen strong symbols is squared to a negative number.
square32_strong : square32 (pos 46341) ≡ negsuc 2147479014
unfolding square32
square32_strong = refl

preamble_pos-IsLast_example : IsLast 0xf9a82265 0xf9a8 (preamble_pos 0xf9a82265 0xf9a8)
preamble_pos-IsLast_example = preamble_pos-IsLast 0xf9a82265 0xf9a8

abbrev upright : Frame whole
upright = frame_of open_stint (soft_word 32 0xf9a82265 ++ soft_word 64 0x123456789abcdef0)

preamble_pos-upright : preamble_pos 0xf9a82265 0xf9a8 ≡ some 0
unfolding preamble_pos search_preamble popcount
preamble_pos-upright = refl

bits-turned_example : bits whole (turned whole upright) ≡ bits whole upright
unfolding concat_bits32 concat_bits preamble_pos search_preamble popcount new_frame
bits-turned_example = bits-turned whole upright (omega arith) (omega arith) refl refl

abbrev two_humps : List ℤ
two_humps = pos 0 ∷ pos 3 ∷ pos 7 ∷ pos 2 ∷ pos 5 ∷ pos 1 ∷ pos 0 ∷ []

-- Four times, and one between the second and the third.
abbrev times : List ℤ
times = pos 0 ∷ pos 10 ∷ pos 20 ∷ pos 30 ∷ []

advance-IsBracket_example : IsBracket whole times (pos 15) 0 1
unfolding advance ◌-ℤ◌
advance-IsBracket_example = advance-IsBracket whole times (pos 15) 0 (omega arith) (omega arith)

between-bounds_example :
    let p = between whole keep rate 1000000 2560000 40 (negsuc 9) 90 in
    (1000000 ≤ p.weighted_timestamp)
    × (p.weighted_timestamp ≤ 1000000 + timecode_to_usec rate 2560000)
    × (p.duration ≤ timecode_to_usec rate 2560000)
between-bounds_example =
    between-bounds whole keep rate 1000000 2560000 40 90 (negsuc 9) (omega arith) (omega arith)
      (omega arith) (omega arith) (omega arith)

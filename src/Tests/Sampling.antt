-- ===== src/Tests/Sampling.antt =====
-- Tests of the frame detector.
use openstint.Base.{List, Option, [], arith, refl, some, suc, zero, ℕ, ◌+◌, ◌∷◌, ◌≡◌}
use openstint.Base.Int.{ℤ, pos, negsuc}
use openstint.Transponder.{TransponderProtocol}
use openstint.Correlator.{new_buff}
use openstint.Correlator.Window.{IsValid, sum}
use openstint.Detector.{
  Complex, Lane, origin, clamp16, FrameDetector, new_frame_detector, process_baseband,
}
use openstint.Detector.Lanes.{IsSound, process_baseband-IsSound}
use openstint.Tests.{whole}

abbrev sample : ℤ → ℤ → Complex
sample re im = record { re = re; im = im }

-- A strong product is cut to 16 bits.
clamp16_strong : clamp16 (pos 32768) ≡ pos 32767
unfolding clamp16
clamp16_strong = refl

quiet-IsValid : IsValid new_buff
unfolding sum
quiet-IsValid = record {
  phase_in = omega arith;
  symbols = refl;
  energies = refl;
  small = omega arith;
  summed = refl;
}

abbrev one_lane : FrameDetector whole
one_lane = new_frame_detector whole 1

process_baseband-IsSound_example :
    (out : Option (TransponderProtocol × ℤ) × FrameDetector whole) × (process_baseband whole
        (sample (pos 100) (negsuc 90) ∷ [])
        one_lane
      ≡ some out)
    × IsSound whole 1 out.1
process_baseband-IsSound_example =
    process_baseband-IsSound whole (sample (pos 100) (negsuc 90) ∷ []) one_lane (omega arith)
      (record { valid = (quiet-IsValid, tt); count = refl })

abbrev lane_of : ℕ → Lane
lane_of energy = record {
  last_sample = origin;
  buffer = record new_buff { window_energy = energy };
}

-- `n` samples whose real parts count up from `i`.
abbrev ramp : ℕ → ℕ → List Complex
ramp zero i = []
ramp (suc n) i = sample (pos i) (pos 0) ∷ ramp n (i + 1)

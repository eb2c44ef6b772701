-- ===== src/Statistics.antt =====
-- `RxStatistics` of src/counters.hpp and src/counters.cpp: the counters of the frames and the noise,
-- as they are reported.
use openstint.Base.{Bool, if◌then◌else◌, leb, ℕ, ◌%◌, ◌+◌, ◌^◌}
use openstint.Float.{Float}
use openstint.Reader.Liquid.{Dsp}

module _ (F : Float) where
  open F use {R, sub, mul, lit, log10}

  pub record RxStatistics : Type 0 where
    pub frames_received : ℕ
    pub frames_processed : ℕ
    pub dc_offset : R × R
    pub noise_power : R
    pub last_reset_timestamp : ℕ

  -- A new object's members.
  abbrev pub new_statistics : RxStatistics
  new_statistics = record {
    frames_received = 0;
    frames_processed = 0;
    dc_offset = (lit 0 0, lit 0 0);
    noise_power = lit 0 0;
    last_reset_timestamp = 0;
  }

  unfoldable pub reporting_due : ℕ → RxStatistics → Bool
  reporting_due now s = leb ((s.last_reset_timestamp + 5000000) % 2 ^ 64) now

  unfoldable pub register_frame : Bool → RxStatistics → RxStatistics
  register_frame processed s = record s {
    frames_received = (s.frames_received + 1) % 2 ^ 32;
    frames_processed = if processed then (s.frames_processed + 1) % 2 ^ 32 else s.frames_processed;
  }

  unfoldable pub save_channel_characteristics : R × R → R → RxStatistics → RxStatistics
  save_channel_characteristics dc_offset noise_power s = record s {
    dc_offset = dc_offset;
    noise_power = noise_power;
  }

  unfoldable pub reset : ℕ → RxStatistics → RxStatistics
  reset now s = record s { frames_received = 0; frames_processed = 0; last_reset_timestamp = now }

  -- The values that `to_string` formats: the noise floor, the offset's magnitude, the two counters.
  unfoldable pub to_string : Dsp F → RxStatistics → R × R × ℕ × ℕ
  to_string dsp s = (
    sub (mul (lit 10 0) (log10 s.noise_power)) (mul (lit 20 0) (log10 (lit 179 0))),
    dsp.abs s.dc_offset,
    s.frames_received,
    s.frames_processed,
  )

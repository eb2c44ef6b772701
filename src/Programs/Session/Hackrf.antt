-- ===== src/Programs/Session/Hackrf.antt =====
-- The calls of libhackrf in `main` of src/main_hackrf.cpp, in their order, for whatever results they
-- have. The messages are left out.
use openstint.Base.{Bool, List, [], if◌then◌else◌, negb, suc, zero, ℕ, ◌++◌, ◌||◌, ◌∷◌}

pub data HackrfCall : Type 0 where
  hackrf_init : HackrfCall
  open_by_serial : HackrfCall
  partid_serialno_read : HackrfCall
  set_freq : HackrfCall
  set_sample_rate : HackrfCall
  set_baseband_filter_bandwidth : HackrfCall
  set_lna_gain : HackrfCall
  set_vga_gain : HackrfCall
  set_amp_enable : HackrfCall
  set_antenna_enable : HackrfCall
  start_rx : HackrfCall
  is_streaming : HackrfCall
  -- the program's own `report_detections`
  report : HackrfCall
  stop_rx : HackrfCall
  hackrf_close : HackrfCall
  hackrf_exit : HackrfCall

-- What happens: which calls return `HACKRF_SUCCESS`, whether `device` is null after the opening,
-- how many rounds the main loop has, whether it ends because the device is found not to be
-- streaming, and whether a signal has come by the end.
pub record HackrfOutcome : Type 0 where
  pub success : HackrfCall → Bool
  pub is_null : Bool
  pub rounds : ℕ
  pub stops_streaming : Bool
  pub do_exit : Bool

module _ (o : HackrfOutcome) where
  open o use {success}

  -- The main loop, with the call of its condition, which a signal before it skips.
  unfoldable pub loop_rounds : ℕ → List HackrfCall
  loop_rounds zero = if o.stops_streaming then is_streaming ∷ [] else []
  loop_rounds (suc n) = is_streaming ∷ report ∷ loop_rounds n

  -- From `hackrf_start_rx` to the label.
  unfoldable pub receive : List HackrfCall
  receive =
      if success start_rx then start_rx ∷ loop_rounds o.rounds ++ stop_rx ∷ [] else start_rx ∷ []

  -- The settings, with their jumps to the label.
  unfoldable pub configure : List HackrfCall
  configure =
      if negb (success set_freq)
      then set_freq ∷ []
      else if negb (success set_sample_rate)
      then set_freq ∷ set_sample_rate ∷ []
      else if negb (success set_baseband_filter_bandwidth)
      then set_freq ∷ set_sample_rate ∷ set_baseband_filter_bandwidth ∷ []
      else set_freq ∷ set_sample_rate ∷ set_baseband_filter_bandwidth ∷ set_lna_gain ∷ set_vga_gain
        ∷ set_amp_enable ∷ set_antenna_enable ∷ receive

  -- The calls and the status of the program.
  unfoldable pub hackrf_main : List HackrfCall × ℕ
  hackrf_main =
      if negb (success hackrf_init)
      then (hackrf_init ∷ [], 1)
      else if negb (success open_by_serial) || o.is_null
      then (hackrf_init ∷ open_by_serial ∷ hackrf_exit ∷ [], 1)
      else (
        hackrf_init ∷ open_by_serial ∷ partid_serialno_read ∷ configure
            ++ hackrf_close ∷ hackrf_exit ∷ [],
        if o.do_exit then 0 else 1,
      )

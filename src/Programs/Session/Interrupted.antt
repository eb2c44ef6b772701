-- ===== src/Programs/Session/Interrupted.antt =====
-- That a signal does not put the calls of src/main_rtlsdr.cpp out of order: `signal_handler` calls
-- `rtlsdr_cancel_async` between any two calls of the main thread.
use openstint.Base.{Bool, false, true, ◌≡◌}
use openstint.Programs.Session.Phases.{Phase, down, ready, opened, receiving, stopping}

-- The phases with and without signals: a signal may already have asked to stop.
pub data Ahead (p : Phase) : Phase → Type 0 where
  same : Ahead p p
  asked : p ≡ receiving → Ahead p stopping

-- The phases in which the device is set.
abbrev has_device_in : Phase → Bool
has_device_in down = false
has_device_in ready = false
has_device_in opened = true
has_device_in receiving = true
has_device_in stopping = true

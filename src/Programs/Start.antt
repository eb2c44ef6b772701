-- ===== src/Programs/Start.antt =====
-- The choice that `main` of src/main_hackrf.cpp and of src/main_rtlsdr.cpp makes once the command line
-- is read: to refuse it, to replay captures, or to run the radio. The signal handlers
-- come before the choice and are left out, and so does `init_commons`: what it does is in
-- Receiver/Decoder, and here stands whether it throws, for a port that is taken or a storage directory
-- that is not there. No later call is taken to throw.
pub mod Status
use openstint.Base.{Bool, List, Option, [], if◌then◌else◌, map, none, some, ℕ, ◌∷◌}
use openstint.Programs.Arguments.{new_hackrf, hackrf_arguments, new_rtlsdr, rtlsdr_arguments}
use openstint.Programs.Capture.{Step, replay_capture}
use openstint.Programs.Session.Hackrf.{HackrfCall, HackrfOutcome, hackrf_main}
use openstint.Programs.Session.Rtlsdr.{RtlsdrCall, RtlsdrOutcome, rtlsdr_main}

-- What a program does, over the calls of its radio's library; a radio's calls come with the status.
pub data Course (Radio : Type 0) : Type 0 where
  refuses : Course Radio
  -- an exception that nothing catches
  aborts : Course Radio
  replays : List Step → Course Radio
  runs : List Radio × ℕ → Course Radio

-- The status of the program; an uncaught exception ends it by the signal SIGABRT, for which a shell
-- shows 128 + 6.
unfoldable pub exit_status : {Radio : Type 0} → Course Radio → ℕ
exit_status refuses = 1
exit_status aborts = 134
exit_status (replays steps) = 0
exit_status (runs calls) = calls.1

-- `!capture_files.empty()`; `files` is what can be opened.
unfoldable pub replays_or :
    {Radio : Type 0}
    → (List ℕ → Option (List ℕ))
    → ℕ
    → List (List ℕ)
    → List Radio × ℕ
    → Course Radio
replays_or files n [] radio = runs radio
replays_or files n (name ∷ names) radio = replays (replay_capture (map files (name ∷ names)) n)

-- `throws` is what becomes of `init_commons`.
unfoldable pub hackrf_course :
    (List ℕ → Option (List ℕ)) → ℕ → Bool → HackrfOutcome → List (List ℕ) → Course HackrfCall
hackrf_course files n throws o args = elim (hackrf_arguments args new_hackrf) [
  | none ↦ refuses
  | some a ↦ if throws then aborts else replays_or files n a.capture_files (hackrf_main o)
]

unfoldable pub rtlsdr_course :
    (List ℕ → Option (List ℕ)) → ℕ → Bool → RtlsdrOutcome → List (List ℕ) → Course RtlsdrCall
rtlsdr_course files n throws o args = elim (rtlsdr_arguments args new_rtlsdr) [
  | none ↦ refuses
  | some a ↦ if throws then aborts else replays_or files n a.capture_files (rtlsdr_main o)
]

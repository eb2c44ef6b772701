-- ===== src/Programs/Start/Status.antt =====
-- With which status the programs of src/main_hackrf.cpp and src/main_rtlsdr.cpp end.
use openstint.Base.{Bool, List, Option, [], false, negb, none, some, true, ℕ, ◌>>=◌, ◌||◌, ◌∷◌, ◌≡◌}
use openstint.Programs.Arguments.{new_hackrf, hackrf_arguments, new_rtlsdr, rtlsdr_arguments}
use openstint.Programs.Session.Hackrf.{HackrfCall, HackrfOutcome}
use openstint.Programs.Session.Rtlsdr.{RtlsdrCall, RtlsdrOutcome}

-- The HackRF was opened, and a signal ended the session.
abbrev pub SignalEnds : HackrfOutcome → Type 0
SignalEnds o =
    (o.success HackrfCall.hackrf_init ≡ true)
    × (o.success HackrfCall.open_by_serial ≡ true)
    × (o.is_null ≡ false)
    × (o.do_exit ≡ true)

-- The RTL-SDR that was asked for was opened.
abbrev pub Opens : RtlsdrOutcome → Type 0
Opens o =
    (o.has_device ≡ true)
    × ((negb o.has_serial || o.success RtlsdrCall.get_index_by_serial) ≡ true)
    × (o.success RtlsdrCall.rtlsdr_open ≡ true)
    × (o.is_null ≡ false)

-- Over an exception of `init_commons`, the file names of an accepted command line, and what the radio
-- needs.
abbrev pub EndsWell : Bool → Option (List (List ℕ)) → Type 0 → Type 0
EndsWell throws none Radio = ⊥
EndsWell true (some names) Radio = ⊥
EndsWell false (some []) Radio = Radio
EndsWell false (some (name ∷ names)) Radio = Unit

-- The captures that an accepted command line names.
abbrev pub hackrf_names : List (List ℕ) → Option (List (List ℕ))
hackrf_names args = hackrf_arguments args new_hackrf >>= λ a. some a.capture_files

abbrev pub rtlsdr_names : List (List ℕ) → Option (List (List ℕ))
rtlsdr_names args = rtlsdr_arguments args new_rtlsdr >>= λ a. some a.capture_files

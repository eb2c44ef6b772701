-- ===== src/Tests/Sessions.antt =====
-- Tests of the programs: their command lines, the replay and the sessions with a radio.
use openstint.Base.{
  List, Option, [], arith, false, if◌then◌else◌, none, some, true, ℕ, ◌*◌, ◌==◌, ◌∷◌, ◌≡◌,
}
use openstint.Programs.Capture.{int8_of, centred_byte, samples_of, replay_capture, samples_fed}
use openstint.Programs.Capture.Files.{rounds_for, recorded, samples_fed-replay_capture}
use openstint.Programs.Replay.{Moment, replay, replay-timecode}
use openstint.Transponder.{rc3}
use openstint.Receiver.Decoder.{Decoder}
use openstint.Tests.Files.{file}
use openstint.Tests.{whole, keep, rate, echo, frame_of}
use openstint.Tests.Buffers.{plain}
use openstint.Programs.Session.Hackrf.{HackrfOutcome}
use openstint.Programs.Session.Rtlsdr.{RtlsdrOutcome}

abbrev recorded_bytes : List ℕ
recorded_bytes = 0 ∷ 127 ∷ 128 ∷ 255 ∷ 7 ∷ []

-- Two files, the second of which cannot be opened, and a third.
abbrev captures : List (Option (List ℕ))
captures = some recorded_bytes ∷ none ∷ some (1 ∷ 2 ∷ []) ∷ []

samples_fed-replay_capture_example :
    samples_fed int8_of (replay_capture captures 5) ≡ recorded int8_of captures
unfolding rounds_for
samples_fed-replay_capture_example = samples_fed-replay_capture int8_of captures 5 (omega arith)

abbrev at_once : ℕ → Moment
at_once i = record { now_sysclk = i * 1000; now_ts = i * 100; entries = [] }

replay-timecode_example :
    (out : Decoder whole plain keep rate echo) × (replay whole plain keep rate echo true
        centred_byte at_once captures 5
        (file ∷ [])
        (frame_of rc3 [])
      ≡ some out)
    × (out.station.timecode ≡ 3)
unfolding rounds_for recorded samples_of
replay-timecode_example =
    replay-timecode whole plain keep rate echo true centred_byte at_once captures 5 (file ∷ [])
      (frame_of rc3 []) (omega arith)

-- "-l" and "33", which is set to a step of 8.
abbrev line : List (List ℕ)
line = (45 ∷ 108 ∷ []) ∷ (51 ∷ 51 ∷ []) ∷ []

-- A HackRF that streams for three rounds, and an RTL-SDR of the fourth version with two signals while
-- it is read.
abbrev streams : HackrfOutcome
streams = record {
  success = λ c. true;
  is_null = false;
  rounds = 3;
  stops_streaming = false;
  do_exit = true;
}

abbrev fourth : RtlsdrOutcome
fourth = record {
  has_device = true;
  has_serial = false;
  success = λ c. true;
  is_null = false;
  named_v4 = true;
  has_r828d = true;
  rounds = 2;
  signals = λ i. if i == 12 then 2 else 0;
}

-- ===== src/Programs/Replay.antt =====
-- The replay of captures through the receiver: what `main` of src/main_hackrf.cpp and of
-- src/main_rtlsdr.cpp does for the option -c, with the callbacks that it hands to `replay_capture`.
use openstint.Base.{
  Bool, List, Option, [], ap, arith, length, length-append, refl, some, ℕ, ◌%◌, ◌+◌, ◌^◌, ◌∷◌, ◌≡◌,
  ◌≤◌,
}
use openstint.Base.Int.{ℤ}
use openstint.Float.{Float}
use openstint.Transponder.{Codec}
use openstint.Frame.{Frame}
use openstint.Reader.Liquid.{Dsp}
use openstint.Rc4.FileBased.{DirectoryEntry}
use openstint.Receiver.Report.{resync_registry}
use openstint.Receiver.Decoder.{Call, receives, reports_at, Decoder, init_commons, started, run}
use openstint.Receiver.Decoder.Total.{samples_in, samples_of_calls, started-IsReady, run-IsReady}
use openstint.Programs.Capture.{Step, feeds, reports, samples_of, replay_capture, samples_fed}
use openstint.Programs.Capture.Files.{rounds_for, recorded, samples_fed-replay_capture}

-- The clocks and the files of the storage directory at a step of the replay.
pub record Moment : Type 0 where
  pub now_sysclk : ℕ
  pub now_ts : ℕ
  pub entries : List DirectoryEntry

-- The calls of the receiver, with the times at which they are made; `read` is the conversion of a
-- byte by the callback.
unfoldable pub calls_of : (ℕ → ℤ) → (ℕ → Moment) → ℕ → List Step → List Call
calls_of read at i [] = []
calls_of read at i (feeds bytes ∷ steps) =
    receives (at i).now_ts (samples_of read bytes) ∷ calls_of read at (i + 1) steps
calls_of read at i (reports ∷ steps) =
    reports_at (at i).now_sysclk (at i).now_ts (at i).entries ∷ calls_of read at (i + 1) steps

samples_of_calls-calls_of :
    (read : ℕ → ℤ) (at : ℕ → Moment) (i : ℕ) (steps : List Step)
    → samples_of_calls (calls_of read at i steps) ≡ length (samples_fed read steps)
unfolding calls_of samples_fed samples_of_calls samples_in
samples_of_calls-calls_of read at i [] = refl
samples_of_calls-calls_of read at i (feeds bytes ∷ steps) = omega (
  arith,
  length-append (samples_of read bytes) (samples_fed read steps),
  samples_of_calls-calls_of read at (i + 1) steps,
)
samples_of_calls-calls_of read at i (reports ∷ steps) =
    omega (arith, samples_of_calls-calls_of read at (i + 1) steps)

module _ (F : Float) (dsp : Dsp F) (fir : List F.R → List F.R → List F.R) (sample_rate : ℕ)
    (codec : Codec) where
  unfoldable pub replay :
      Bool
      → (ℕ → ℤ)
      → (ℕ → Moment)
      → List (Option (List ℕ))
      → ℕ
      → List DirectoryEntry
      → Frame F
      → Option (Decoder F dsp fir sample_rate codec)
  replay mode_sysclk read at sources n entries f =
      run F dsp fir sample_rate codec mode_sysclk (calls_of read at 0 (replay_capture sources n))
        (started F dsp fir sample_rate codec entries f)

  -- The replay of any files that is not stopped before they are through comes to its end, whatever
  -- bytes they hold, whatever files the storage directory has and whatever times the clocks show: the decoder's timecode is then the number
  -- of all their samples, modulo 2^64.
  pub replay-timecode :
      (mode_sysclk : Bool) (read : ℕ → ℤ) (at : ℕ → Moment) (sources : List (Option (List ℕ)))
      (n : ℕ) (entries : List DirectoryEntry) (f : Frame F)
      → rounds_for sources ≤ n
      → (out : Decoder F dsp fir sample_rate codec) × (replay mode_sysclk read at sources n entries
            f
          ≡ some out)
        × (out.station.timecode ≡ length (recorded read sources) % 2 ^ 64)
  unfolding replay init_commons resync_registry
  replay-timecode mode_sysclk read at sources n entries f h =
      let steps = replay_capture sources n in
      let (out, e, ready, counted) =
        run-IsReady F dsp fir sample_rate codec mode_sysclk (calls_of read at 0 steps)
          (started F dsp fir sample_rate codec entries f)
          (started-IsReady F dsp fir sample_rate codec entries f) (omega arith) in
      (
        out,
        e,
        omega (
          arith,
          counted,
          samples_of_calls-calls_of read at 0 steps,
          ap length (samples_fed-replay_capture read sources n h),
        ),
      )

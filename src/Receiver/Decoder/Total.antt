-- ===== src/Receiver/Decoder/Total.antt =====
-- That the decoder of src/commons.cpp never gets stuck.
use openstint.Base.{
  Bool, List, [], arith, bind-some, length, refl, some, ℕ, ◌%◌, ◌+◌, ◌<◌, ◌^◌, ◌∙◌, ◌∷◌, ◌≡◌,
}
use openstint.Float.{Float}
use openstint.Transponder.{Codec}
use openstint.Frame.{Frame}
use openstint.Reader.Liquid.{Dsp}
use openstint.Receiver.Frames.{detect_frames}
use openstint.Receiver.Frames.Ready.{IsReady, InMode-kept}
use openstint.Receiver.Frames.Sound.{detect_frames-Counted, new_station-IsReady}
use openstint.Rc4.FileBased.{DirectoryEntry}
use openstint.Receiver.Report.{resync_registry, report_detections}
use openstint.Receiver.Report.Answers.{report_detections-answers}
use openstint.Receiver.Decoder.{
  Call, receives, reports_at, Decoder, reporter_of, reported, init_commons, started, step, run,
}

-- The samples that come with a call, and with some calls.
unfoldable pub samples_in : Call → ℕ
samples_in (receives timestamp samples) = length samples
samples_in (reports_at now_sysclk now_ts entries) = 0

unfoldable pub samples_of_calls : List Call → ℕ
samples_of_calls [] = 0
samples_of_calls (c ∷ cs) = samples_in c + samples_of_calls cs

module _ (F : Float) (dsp : Dsp F) (fir : List F.R → List F.R → List F.R) (sample_rate : ℕ)
    (codec : Codec) where
  abbrev D : Type 0
  D = Decoder F dsp fir sample_rate codec

  pub started-IsReady :
      (entries : List DirectoryEntry) (f : Frame F)
      → IsReady F dsp fir sample_rate codec (started F dsp fir sample_rate codec entries f).station
  unfolding init_commons resync_registry
  started-IsReady entries f =
      let v = new_station-IsReady F dsp fir sample_rate codec f in
      record { sound = v.sound; reserve = v.reserve; mode = v.mode; trainer = v.trainer }

  step-IsReady :
      (mode_sysclk : Bool) (c : Call) (d : D)
      → IsReady F dsp fir sample_rate codec d.station
      → d.station.timecode < 2 ^ 64
      → (out : D) × (step F dsp fir sample_rate codec mode_sysclk c d ≡ some out)
        × IsReady F dsp fir sample_rate codec out.station
        × (out.station.timecode ≡ (d.station.timecode + samples_in c) % 2 ^ 64)
  unfolding step samples_in
  step-IsReady mode_sysclk (receives timestamp samples) d v small =
      let (out, e, ready, counted) =
        detect_frames-Counted F dsp fir sample_rate codec timestamp samples d.station v in
      (
        record d { station = out },
        bind-some (detect_frames F dsp fir sample_rate codec timestamp samples d.station)
            (λ s. some (record d { station = s })) e,
        ready,
        counted,
      )
  step-IsReady mode_sysclk (reports_at now_sysclk now_ts entries) d v small =
      let (out, e, safe) =
        report_detections-answers F dsp fir sample_rate codec mode_sysclk now_sysclk now_ts entries
          (reporter_of F dsp fir sample_rate codec d) v.trainer in
      (
        reported F dsp fir sample_rate codec d out,
        bind-some
            (report_detections F dsp fir sample_rate codec mode_sysclk now_sysclk now_ts entries
              (reporter_of F dsp fir sample_rate codec d))
            (λ p. some (reported F dsp fir sample_rate codec d p)) e,
        record {
          sound = v.sound;
          reserve = v.reserve;
          mode =
              InMode-kept F dsp fir sample_rate codec d.station.frame_parse_mode d.station
                d.station.frame_detector d.station.symbol_reader out.1.receiver out.1.rx_stats
                d.station.timecode v.mode;
          trainer = safe;
        },
        omega (arith, small),
      )

  pub run-IsReady :
      (mode_sysclk : Bool) (cs : List Call) (d : D)
      → IsReady F dsp fir sample_rate codec d.station
      → d.station.timecode < 2 ^ 64
      → (out : D) × (run F dsp fir sample_rate codec mode_sysclk cs d ≡ some out)
        × IsReady F dsp fir sample_rate codec out.station
        × (out.station.timecode ≡ (d.station.timecode + samples_of_calls cs) % 2 ^ 64)
  unfolding run samples_of_calls
  run-IsReady mode_sysclk [] d v small = (d, refl, v, omega (arith, small))
  run-IsReady mode_sysclk (c ∷ cs) d v small =
      let (one, e, ready, counted) = step-IsReady mode_sysclk c d v small in
      let (out, e', done, counted') =
        run-IsReady mode_sysclk cs one ready (omega (arith, counted)) in
      (
        out,
        bind-some (step F dsp fir sample_rate codec mode_sysclk c d)
              (run F dsp fir sample_rate codec mode_sysclk cs) e
            ∙ e',
        done,
        omega (arith, counted, counted'),
      )

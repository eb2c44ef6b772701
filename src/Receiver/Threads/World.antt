-- ===== src/Receiver/Threads/World.antt =====
-- Both threads of a device program over the objects of src/commons.cpp that they share.
use openstint.Base.{Bool, List, some, ℕ, ◌≡◌}
use openstint.Float.{Float}
use openstint.Transponder.{Codec}
use openstint.Detector.{Complex}
use openstint.Frame.{Frame}
use openstint.Rc4.FileBased.{DirectoryEntry}
use openstint.Reader.Liquid.{Dsp}
use openstint.Receiver.Report.{Report}
use openstint.Receiver.Decoder.{Decoder, started, reporter_of, reported}
use openstint.Receiver.Threads.Callback.{Position, away, St, arrive, receive_step}
use openstint.Receiver.Threads.MainLoop.{Now, Point, sleeping, deciding, C, report_step}

module _ (F : Float) (dsp : Dsp F) (fir : List F.R → List F.R → List F.R) (sample_rate : ℕ)
    (codec : Codec) where
  -- Both threads over the shared objects.
  pub record World : Type 0 where
    pub decoder : Decoder F dsp fir sample_rate codec
    pub position : Position F
    pub point : Point
    pub now : Now

  abbrev pub new_world : List DirectoryEntry → Frame F → Now → World
  new_world entries f now = record {
    decoder = started F dsp fir sample_rate codec entries f;
    position = away;
    point = sleeping;
    now = now;
  }

  abbrev pub stepped : World → Position F × St F dsp fir sample_rate codec → World
  stepped w (position, st) = record w {
    decoder = record w.decoder { station = st };
    position = position;
  }

  abbrev pub polled : World → Point × List (Report F) × C F dsp fir sample_rate codec → World
  polled w (point, reports, c) = record w {
    decoder = reported F dsp fir sample_rate codec w.decoder (reports, c);
    point = point;
  }

  -- What may happen: a buffer comes while the callback is not running, the main loop wakes up, and
  -- either thread makes its next step.
  pub data Happens (mode : Bool) (w : World) : World → Type 0 where
    arrives :
        (timestamp : ℕ) (samples : List Complex)
        → w.position ≡ away
        → Happens mode w
            (stepped w (arrive F dsp fir sample_rate codec timestamp samples w.decoder.station))
    receives :
        (out : Position F × St F dsp fir sample_rate codec)
        → receive_step F dsp fir sample_rate codec w.position w.decoder.station ≡ some out
        → Happens mode w (stepped w out)
    wakes :
        (now : Now) → w.point ≡ sleeping → Happens mode w (record w { point = deciding; now = now })
    reports :
        (out : Point × List (Report F) × C F dsp fir sample_rate codec)
        → report_step F dsp fir sample_rate codec mode w.now w.point
            (reporter_of F dsp fir sample_rate codec w.decoder)
          ≡ some out
        → Happens mode w (polled w out)

  -- The worlds that any interleaving of the two threads leads to.
  pub data Reaches (mode : Bool) (w : World) : World → Type 0 where
    here : Reaches mode w w
    then_happens : {u v : World} → Reaches mode w u → Happens mode u v → Reaches mode w v

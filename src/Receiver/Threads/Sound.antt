-- ===== src/Receiver/Threads/Sound.antt =====
-- That no interleaving of a device program's two threads gets stuck.
use openstint.Base.{Bool, List, some, ℕ, ◌≡◌}
use openstint.Float.{Float}
use openstint.Transponder.{Codec}
use openstint.Frame.{Frame}
use openstint.Reader.Liquid.{Dsp}
use openstint.Receiver.Frames.Ready.{IsReady}
use openstint.Receiver.Report.{Report}
use openstint.Receiver.Decoder.{reporter_of}
use openstint.Receiver.Threads.Callback.{Position, St, receive_step}
use openstint.Receiver.Threads.MainLoop.{Point, C, report_step}
use openstint.Receiver.Threads.World.{World}
use openstint.Receiver.Threads.Rounds.{Fits}
use openstint.Receiver.Threads.Reporting.{Knows}

module _ (F : Float) (dsp : Dsp F) (fir : List F.R → List F.R → List F.R) (sample_rate : ℕ)
    (codec : Codec) where
  abbrev W : Type 0
  W = World F dsp fir sample_rate codec

  pub record IsSound (w : W) : Type 0 where
    pub ready : IsReady F dsp fir sample_rate codec w.decoder.station
    pub fits : Fits F dsp fir sample_rate codec w.position
    pub knows : Knows w.point w.decoder.station.receiver.trainer.state

  -- Both threads can make their next step.
  pub record CanMove (mode : Bool) (w : W) : Type 0 where
    pub receiving :
        (out : Position F × St F dsp fir sample_rate codec) × (receive_step F dsp fir sample_rate
            codec w.position w.decoder.station
          ≡ some out)
    pub reporting :
        (out : Point × List (Report F) × C F dsp fir sample_rate codec) × (report_step F dsp fir
            sample_rate codec mode w.now w.point
            (reporter_of F dsp fir sample_rate codec w.decoder)
          ≡ some out)

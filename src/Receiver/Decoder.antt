-- ===== src/Receiver/Decoder.antt =====
-- The whole decoder of src/commons.cpp: `detect_frames`, which a device's callback calls with each
-- buffer, and `report_detections`, which the main loop calls in between, over the same objects. A call
-- is one step here; Receiver/Threads has smaller steps, which may be interleaved.
pub mod Total
pub mod Restart
use openstint.Base.{Bool, List, Option, [], some, ℕ, ◌++◌, ◌>>=◌, ◌∷◌}
use openstint.Float.{Float}
use openstint.Transponder.{Codec}
use openstint.Detector.{Complex}
use openstint.Frame.{Frame}
use openstint.Rc4.FileBased.{DirectoryEntry}
use openstint.Reader.Liquid.{Dsp}
use openstint.Receiver.Frames.{Station, new_station, detect_frames}
use openstint.Receiver.Report.{Report, Reporter, resync_registry, report_detections}

pub data Call : Type 0 where
  receives : ℕ → List Complex → Call
  -- the two clocks and the files of the storage directory
  reports_at : ℕ → ℕ → List DirectoryEntry → Call

module _ (F : Float) (dsp : Dsp F) (fir : List F.R → List F.R → List F.R) (sample_rate : ℕ)
    (codec : Codec) where
  -- `published` is what was reported so far.
  pub record Decoder : Type 0 where
    pub station : Station F dsp fir sample_rate codec
    pub loaded_ids : List ℕ
    pub appended : List (ℕ × List ℕ)
    pub published : List (Report F)

  abbrev pub new_decoder : Frame F → Decoder
  new_decoder f = record {
    station = new_station F dsp fir sample_rate codec f;
    loaded_ids = [];
    appended = [];
    published = [];
  }

  abbrev pub reporter_of : Decoder → Reporter F dsp fir sample_rate codec
  reporter_of d = record {
    receiver = d.station.receiver;
    rx_stats = d.station.rx_stats;
    loaded_ids = d.loaded_ids;
    appended = d.appended;
  }

  abbrev pub reported : Decoder → List (Report F) × Reporter F dsp fir sample_rate codec → Decoder
  reported d (reports, c) = record {
    station = record d.station { receiver = c.receiver; rx_stats = c.rx_stats };
    loaded_ids = c.loaded_ids;
    appended = c.appended;
    published = d.published ++ reports;
  }

  -- The registry is resynchronised with the files that are there at the start.
  unfoldable pub init_commons : List DirectoryEntry → Decoder → Decoder
  init_commons entries d =
      reported d ([], resync_registry F dsp fir sample_rate codec entries (reporter_of d))

  -- What the callback and the main loop start with.
  abbrev pub started : List DirectoryEntry → Frame F → Decoder
  started entries f = init_commons entries (new_decoder f)

  unfoldable pub step : Bool → Call → Decoder → Option Decoder
  step mode_sysclk (receives timestamp samples) d = do
    station ← detect_frames F dsp fir sample_rate codec timestamp samples d.station
    some (record d { station = station })
  step mode_sysclk (reports_at now_sysclk now_ts entries) d = do
    out ←
        report_detections F dsp fir sample_rate codec mode_sysclk now_sysclk now_ts entries
          (reporter_of d)
    some (reported d out)

  unfoldable pub run : Bool → List Call → Decoder → Option Decoder
  run mode_sysclk [] d = some d
  run mode_sysclk (c ∷ cs) d = do d' ← step mode_sysclk c d; run mode_sysclk cs d'

-- ===== src/Receiver/Report.antt =====
-- `report_detections` of src/commons.cpp: what is reported, in its order, and what the reporting does
-- to the receiver. The text of a report and its way to ZeroMQ are not modelled: a report is the
-- values that are formatted.
pub mod Answers
use openstint.Base.{
  Bool, List, Option, [], if◌then◌else◌, insert, ltb, map, some, ℕ, ◌++◌, ◌-◌, ◌>>=◌, ◌∷◌, ℕ_key,
}
use openstint.Float.{Float}
use openstint.Transponder.{Codec}
use openstint.Passing.System.{TransponderKey}
use openstint.Passing.Detector.{TimeSync, Passing, identify_timesyncs, identify_passings}
use openstint.Rc4.Trainer.{
  EvaluationResult, no_action, start, interrupted, done, reset, evaluate, registry_payloads,
  last_rssi,
}
use openstint.Rc4.Lines.{print_lines}
use openstint.Rc4.FileBased.{DirectoryEntry, FileBasedRegistry, resync}
use openstint.Reader.Liquid.{Dsp}
use openstint.Statistics.{RxStatistics, reporting_due, to_string}
use openstint.Statistics
use openstint.Receiver.{Receiver, reporting_timestamp}
use openstint.Receiver.Learning.{learn}

module _ (F : Float) where
  -- The reports "S", "T", "P" and "L", each with its values.
  pub data Report : Type 0 where
    status : ℕ → F.R × F.R × ℕ × ℕ → Report
    time_sync : ℕ → TransponderKey → ℕ → Report
    passing : ℕ → TransponderKey → F.R → ℕ → ℕ → Report
    learn_start : ℕ → F.R → Report
    learn_interrupted : ℕ → Report
    learn_done : ℕ → ℕ → ℕ → Report
    learn_reset : ℕ → Report

  -- The status, which is due every five seconds.
  unfoldable pub report_status : Dsp F → ℕ → ℕ → RxStatistics F → List Report × RxStatistics F
  report_status dsp status_ts now_ts s =
      if reporting_due F now_ts s
      then (status status_ts (to_string F dsp s) ∷ [], openstint.Statistics.reset F now_ts s)
      else ([], s)

  -- `now_ts > 250000ul ? (now_ts-250000ul) : 0ul`
  abbrev pub deadline_at : ℕ → ℕ
  deadline_at now_ts = if ltb 250000 now_ts then now_ts - 250000 else 0

module _ (F : Float) (dsp : Dsp F) (fir : List F.R → List F.R → List F.R) (sample_rate : ℕ)
    (codec : Codec) where
  abbrev pub sync_report : Bool → ℕ → ℕ → TimeSync → Report F
  sync_report mode_sysclk now_ts now_sysclk t =
      time_sync (reporting_timestamp mode_sysclk t.timestamp now_ts now_sysclk) t.key
        t.transponder_timestamp

  abbrev pub passing_report : Bool → ℕ → ℕ → Passing F fir sample_rate → Report F
  passing_report mode_sysclk now_ts now_sysclk p =
      passing (reporting_timestamp mode_sysclk p.timestamp now_ts now_sysclk) p.key p.rssi p.hits
        p.duration

  -- The static objects that the reporting works on, and the text that it appended to files: an id
  -- and what was appended to its file.
  pub record Reporter : Type 0 where
    pub receiver : Receiver F fir sample_rate codec
    pub rx_stats : RxStatistics F
    pub loaded_ids : List ℕ
    pub appended : List (ℕ × List ℕ)

  -- The time synchronisations and the passings.
  unfoldable pub report_received : Bool → ℕ → ℕ → Reporter → List (Report F) × Reporter
  report_received mode_sysclk now_sysclk now_ts c =
      let (syncs, heard) = identify_timesyncs F fir sample_rate 500000 c.receiver.detector in
      let (passings, rest) = identify_passings F fir sample_rate (deadline_at F now_ts) heard in
      (
        map (sync_report mode_sysclk now_ts now_sysclk) syncs
            ++ map (passing_report mode_sysclk now_ts now_sysclk) passings,
        record c { receiver = record c.receiver { detector = rest } },
      )

  -- The case DONE; the file gets the payloads that the registry got.
  unfoldable pub report_done : ℕ → Reporter → Option (List (Report F) × Reporter)
  report_done status_ts c = do
    (id, count, r) ← learn F fir sample_rate codec c.receiver
    some (
      learn_done status_ts id count ∷ [],
      record c {
        receiver = r;
        loaded_ids = insert id c.loaded_ids;
        appended = c.appended ++ (id, print_lines (registry_payloads F c.receiver.trainer)) ∷ [];
      },
    )

  -- The switch over the trainer's result.
  unfoldable pub report_result :
      EvaluationResult → ℕ → Reporter → Option (List (Report F) × Reporter)
  report_result no_action status_ts c = some ([], c)
  report_result start status_ts c = do
    rssi ← last_rssi F c.receiver.trainer
    some (learn_start status_ts rssi ∷ [], c)
  report_result interrupted status_ts c = some (learn_interrupted status_ts ∷ [], c)
  report_result done status_ts c = report_done status_ts c
  report_result reset status_ts c = some (learn_reset status_ts ∷ [], c)

  unfoldable pub report_training : ℕ → ℕ → Reporter → Option (List (Report F) × Reporter)
  report_training status_ts now_ts c = do
    (result, trainer) ← evaluate F now_ts c.receiver.trainer
    report_result result status_ts (record c { receiver = record c.receiver { trainer = trainer } })

  -- `rc4_registry->resync()` over the files as they are then.
  unfoldable pub resync_registry : List DirectoryEntry → Reporter → Reporter
  resync_registry entries c =
      let s : FileBasedRegistry =
        resync entries (record { base = c.receiver.registry; loaded_ids = c.loaded_ids }) in
      record c { receiver = record c.receiver { registry = s.base }; loaded_ids = s.loaded_ids }

  -- All of it, for the two clocks and the files of the storage directory.
  unfoldable pub report_detections :
      Bool → ℕ → ℕ → List DirectoryEntry → Reporter → Option (List (Report F) × Reporter)
  report_detections mode_sysclk now_sysclk now_ts entries c =
      let status_ts = reporting_timestamp mode_sysclk now_ts now_ts now_sysclk in
      let (statuses, stats) = report_status F dsp status_ts now_ts c.rx_stats in
      let (received, c1) =
        report_received mode_sysclk now_sysclk now_ts (record c { rx_stats = stats }) in
      do
        (learned, c2) ← report_training status_ts now_ts c1
        some (statuses ++ received ++ learned, resync_registry entries c2)

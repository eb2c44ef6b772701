-- ===== src/Receiver/Threads/MainLoop.antt =====
-- The steps of the main thread of a device program, in `report_detections` of src/commons.cpp.
use openstint.Base.{
  Bool, List, Option, [], contains, if◌then◌else◌, insert, length, map, some, ℕ, ◌++◌, ◌>>=◌, ◌∷◌,
  ℕ_key,
}
use openstint.Float.{Float}
use openstint.Transponder.{Codec}
use openstint.Passing.System.{amb}
use openstint.Passing.Detector.{identify_timesyncs, identify_passings, passings_between}
use openstint.Rc4.Registry.{store, remove}
use openstint.Rc4.Trainer.{
  EvaluationResult, start, interrupted, done, reset, evaluate, registry_payloads,
  preferred_transponder_id, buffer_timerange, last_rssi,
}
use openstint.Rc4.Lines.{print_lines}
use openstint.Rc4.FileBased.{DirectoryEntry, FileBasedRegistry, file_id, scan_id}
use openstint.Reader.Liquid.{Dsp}
use openstint.Statistics.{reporting_due, to_string, register_frame}
use openstint.Statistics
use openstint.Receiver.{reporting_timestamp}
use openstint.Receiver.Learning.{choose_id}
use openstint.Receiver.Report.{Report, Reporter, deadline_at, sync_report, passing_report}

-- What a call of `report_detections` reads of the system: the clocks and the files.
pub record Now : Type 0 where
  pub now_sysclk : ℕ
  pub now_ts : ℕ
  pub entries : List DirectoryEntry

-- Where the main thread is in `report_detections`, with the local variables of the case DONE.
pub data Point : Type 0 where
  sleeping deciding counting clearing syncing collecting evaluating starting choosing : Point
  gathering : ℕ → Point
  ranging : ℕ → List ℕ → Point
  between : ℕ → List ℕ → ℕ × ℕ → Point
  storing : ℕ → List ℕ → Point
  resyncing : Point
  -- the files that are left, and `current_ids`
  scanning : List DirectoryEntry → List ℕ → Point
  -- the ids of `loaded_ids` before the iterator and from it on, and `current_ids`
  sweeping : List ℕ → List ℕ → List ℕ → Point

-- The step after the evaluation, for a result that reads more.
abbrev pub after_evaluation : EvaluationResult → Point
after_evaluation start = starting
after_evaluation done = choosing
after_evaluation _ = resyncing

module _ (F : Float) where
  abbrev pub evaluation_report : EvaluationResult → ℕ → List (Report F)
  evaluation_report interrupted status_ts = Report.learn_interrupted status_ts ∷ []
  evaluation_report reset status_ts = Report.learn_reset status_ts ∷ []
  evaluation_report _ status_ts = []

module _ (F : Float) (dsp : Dsp F) (fir : List F.R → List F.R → List F.R) (sample_rate : ℕ)
    (codec : Codec) where
  abbrev pub C : Type 0
  C = Reporter F dsp fir sample_rate codec

  abbrev pub registry_of : C → FileBasedRegistry
  registry_of c = record { base = c.receiver.registry; loaded_ids = c.loaded_ids }

  abbrev pub with_registry : FileBasedRegistry → C → C
  with_registry s c = record c {
    receiver = record c.receiver { registry = s.base };
    loaded_ids = s.loaded_ids;
  }

  -- A round of the loop over the directory.
  unfoldable pub scan_step : DirectoryEntry → List DirectoryEntry → List ℕ → C → Point × C
  scan_step e es current c =
      let (current', s) = scan_id (file_id e) e.text (current, registry_of c) in
      (scanning es current', with_registry s c)

  -- A round of the loop over `loaded_ids`.
  unfoldable pub sweep_step : List ℕ → ℕ → List ℕ → List ℕ → C → Point × C
  sweep_step before id ids current c =
      if contains id current then (sweeping (before ++ id ∷ []) ids current, c) else (
        sweeping before ids current,
        with_registry (record { base = remove id c.receiver.registry; loaded_ids = before ++ ids })
            c,
      )

  -- A step of the main thread, with what it reports; `none` is a read of an empty buffer.
  unfoldable pub report_step : Bool → Now → Point → C → Option (Point × List (Report F) × C)
  report_step mode now sleeping c = some (sleeping, [], c)
  report_step mode now deciding c =
      some (if reporting_due F now.now_ts c.rx_stats then counting else syncing, [], c)
  report_step mode now counting c = some (
    clearing,
    Report.status (reporting_timestamp mode now.now_ts now.now_ts now.now_sysclk)
          (to_string F dsp c.rx_stats)
        ∷ [],
    c,
  )
  report_step mode now clearing c =
      some (syncing, [], record c { rx_stats = openstint.Statistics.reset F now.now_ts c.rx_stats })
  report_step mode now syncing c =
      let (syncs, heard) = identify_timesyncs F fir sample_rate 500000 c.receiver.detector in
      some (
        collecting,
        map (sync_report F dsp fir sample_rate codec mode now.now_ts now.now_sysclk) syncs,
        record c { receiver = record c.receiver { detector = heard } },
      )
  report_step mode now collecting c =
      let (passings, rest) =
        identify_passings F fir sample_rate (deadline_at F now.now_ts) c.receiver.detector in
      some (
        evaluating,
        map (passing_report F dsp fir sample_rate codec mode now.now_ts now.now_sysclk) passings,
        record c { receiver = record c.receiver { detector = rest } },
      )
  report_step mode now evaluating c = do
    (result, trainer) ← evaluate F now.now_ts c.receiver.trainer
    some (
      after_evaluation result,
      evaluation_report F result (reporting_timestamp mode now.now_ts now.now_ts now.now_sysclk),
      record c { receiver = record c.receiver { trainer = trainer } },
    )
  report_step mode now starting c = do
    rssi ← last_rssi F c.receiver.trainer
    some (
      resyncing,
      Report.learn_start (reporting_timestamp mode now.now_ts now.now_ts now.now_sysclk) rssi ∷ [],
      c,
    )
  report_step mode now choosing c =
      some (gathering (preferred_transponder_id F c.receiver.trainer), [], c)
  report_step mode now (gathering id) c =
      some (ranging id (registry_payloads F c.receiver.trainer), [], c)
  report_step mode now (ranging id payloads) c = do
    range ← buffer_timerange F c.receiver.trainer
    some (between id payloads range, [], c)
  report_step mode now (between id payloads range) c =
      let detected = passings_between F fir sample_rate amb range.0 range.1 c.receiver.detector in
      some (storing (choose_id id detected) payloads, [], c)
  report_step mode now (storing id payloads) c =
      let (stored, registry) = store id payloads c.receiver.registry in
      some (
        resyncing,
        Report.learn_done (reporting_timestamp mode now.now_ts now.now_ts now.now_sysclk) stored
              (length payloads)
            ∷ [],
        record c {
          receiver = record c.receiver { registry = registry };
          loaded_ids = insert stored c.loaded_ids;
          appended = c.appended ++ (stored, print_lines payloads) ∷ [];
        },
      )
  report_step mode now resyncing c = some (scanning now.entries [], [], c)
  report_step mode now (scanning [] current) c = some (sweeping [] c.loaded_ids current, [], c)
  report_step mode now (scanning (e ∷ es) current) c =
      let (next, c') = scan_step e es current c in some (next, [], c')
  report_step mode now (sweeping before [] current) c = some (sleeping, [], c)
  report_step mode now (sweeping before (id ∷ ids) current) c =
      let (next, c') = sweep_step before id ids current c in some (next, [], c')

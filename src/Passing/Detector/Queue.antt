-- ===== src/Passing/Detector/Queue.antt =====
-- `PassingDetector` of src/passing.cpp as seen by one transponder: the map of all transponders'
-- detections is, for each of them, a queue of its own.
use openstint.Base.{
  Bool-cases, IsOrdered, List, Map, Option, [], ap, arith, assign, drop, find, find-assign,
  if◌then◌else◌, inl, inr, length, length-append, ltb, none, refl, some, ℕ, ◌++◌, ◌+◌, ◌∙◌, ◌∷◌,
  ◌≡◌, ℕ_key,
}
use openstint.Float.{Float}
use openstint.Passing.System.{TransponderKey, transponder_key, same_key_iff, same_key}
use openstint.Passing.Point.{Detection}
use openstint.Passing.Detector.{
  Detections, PassingDetector, Passing, new_detector, append, timesync, identify_passings,
  identify_timesyncs, is_over, detections_of, detection_msg_limit,
}
use openstint.Passing.Detector.Reports.{
  reports_of, reports_of-append, due, unless_over, find-identify_passings,
  reports-identify_passings,
}
use openstint.Passing.Detector.Bounded.{
  Call, appends, syncs_at, reports_passings, reports_timesyncs, step, run, IsSound, step-IsSound,
  run-new_detector,
}

module _ (F : Float) (fir : List F.R → List F.R → List F.R) (sample_rate : ℕ) where
  abbrev Ds : Type 0
  Ds = Detections F fir sample_rate

  abbrev Event : Type 0
  Event = Call F fir sample_rate

  -- The passings that a call of the detector reports.
  abbrev pub passings_at :
      Event → PassingDetector F fir sample_rate → List (Passing F fir sample_rate)
  passings_at (appends k d) p = []
  passings_at (syncs_at ts tts) p = []
  passings_at (reports_passings deadline) p = (identify_passings F fir sample_rate deadline p).0
  passings_at (reports_timesyncs margin) p = []

  -- All passings that the calls report.
  pub all_passings :
      List Event → PassingDetector F fir sample_rate → List (Passing F fir sample_rate)
  all_passings [] p = []
  all_passings (c ∷ cs) p = passings_at c p ++ all_passings cs (step F fir sample_rate c p)

  -- The queue of one transponder: a detection of another one does not touch it, and it forgets its
  -- oldest detection when it grows past the limit.
  abbrev pub queue_step : TransponderKey → Event → Ds → Ds
  queue_step k (appends j d) ds =
      if same_key j k
      then (if ltb detection_msg_limit (length ds + 1) then drop 1 (ds ++ d ∷ []) else ds ++ d ∷ [])
      else ds
  queue_step k (syncs_at ts tts) ds = ds
  queue_step k (reports_passings deadline) ds =
      if is_over F fir sample_rate deadline ds then [] else ds
  queue_step k (reports_timesyncs margin) ds = ds

  abbrev pub queue_due : TransponderKey → Event → Ds → List (Passing F fir sample_rate)
  queue_due k (appends j d) ds = []
  queue_due k (syncs_at ts tts) ds = []
  queue_due k (reports_passings deadline) ds = due F fir sample_rate deadline k (some ds)
  queue_due k (reports_timesyncs margin) ds = []

  unfoldable pub queue_after : TransponderKey → List Event → Ds → Ds
  queue_after k [] ds = ds
  queue_after k (c ∷ cs) ds = queue_after k cs (queue_step k c ds)

  unfoldable pub queue_passings :
      TransponderKey → List Event → Ds → List (Passing F fir sample_rate)
  queue_passings k [] ds = []
  queue_passings k (c ∷ cs) ds = queue_due k c ds ++ queue_passings k cs (queue_step k c ds)

  detections-assign :
      (j k : TransponderKey) (ds : Ds) (m : Map TransponderKey Ds)
      → detections_of F fir sample_rate k (assign j ds m)
        ≡ (if same_key j k then ds else detections_of F fir sample_rate k m)
  detections-assign j k ds m = ground (arith, find-assign k j ds m)

  queue-append :
      (j k : TransponderKey) (d : Detection F fir sample_rate)
      (p : PassingDetector F fir sample_rate)
      → detections_of F fir sample_rate k (append F fir sample_rate j d p).detections
        ≡ queue_step k (appends j d) (detections_of F fir sample_rate k p.detections)
  unfolding append
  queue-append j k d p =
      let of : TransponderKey → Ds = λ i. detections_of F fir sample_rate i p.detections in
      let grown : TransponderKey → Ds = λ i. of i ++ d ∷ [] in
      let next : TransponderKey → Ds =
        λ i. if ltb detection_msg_limit (length (grown i)) then drop 1 (grown i) else grown i in
      elim (Bool-cases (same_key j k)) [
        | inl same ↦
            let e : j ≡ k = (same_key_iff j k).0 same in
            rw (
              detections-assign j k (next j) p.detections,
              same,
              e,
              length-append {0} (of k) (d ∷ []),
            )
        | inr other ↦ rw (detections-assign j k (next j) p.detections, other)
      ]

  abbrev held : Option Ds → Ds
  held none = []
  held (some ds) = ds

  held-unless_over :
      (deadline : ℕ) (k : TransponderKey) (o : Option Ds)
      → held (unless_over F fir sample_rate deadline o)
        ≡ queue_step k (reports_passings deadline) (held o)
  held-unless_over deadline k none = refl
  held-unless_over deadline k (some ds) =
      elim (Bool-cases (is_over F fir sample_rate deadline ds)) [
        | inl over ↦ rw over
        | inr early ↦ rw early
      ]

  queue-step :
      (k : TransponderKey) (c : Event) (p : PassingDetector F fir sample_rate)
      → IsOrdered p.detections
      → detections_of F fir sample_rate k (step F fir sample_rate c p).detections
        ≡ queue_step k c (detections_of F fir sample_rate k p.detections)
  unfolding step timesync identify_timesyncs
  queue-step k (appends j d) p o = queue-append j k d p
  queue-step k (syncs_at ts tts) p o = refl
  queue-step k (reports_passings deadline) p o =
      ap held (find-identify_passings F fir sample_rate k deadline p o)
      ∙ held-unless_over deadline k (find k p.detections)
  queue-step k (reports_timesyncs margin) p o = refl

  due-detections_of :
      (deadline : ℕ) (k : TransponderKey) (o : Option Ds)
      → due F fir sample_rate deadline k o ≡ due F fir sample_rate deadline k (some (held o))
  due-detections_of deadline k none = refl
  due-detections_of deadline k (some ds) = refl

  due-step :
      (k : TransponderKey) (c : Event) (p : PassingDetector F fir sample_rate)
      → IsOrdered p.detections
      → reports_of F fir sample_rate k (passings_at c p)
        ≡ queue_due k c (detections_of F fir sample_rate k p.detections)
  due-step k (appends j d) p o = refl
  due-step k (syncs_at ts tts) p o = refl
  due-step k (reports_passings deadline) p o =
      reports-identify_passings F fir sample_rate k deadline p o
      ∙ due-detections_of deadline k (find k p.detections)
  due-step k (reports_timesyncs margin) p o = refl

  run-Queues :
      (k : TransponderKey) (cs : List Event) (p : PassingDetector F fir sample_rate)
      → IsSound F fir sample_rate p
      → (detections_of F fir sample_rate k (run F fir sample_rate cs p).detections
          ≡ queue_after k cs (detections_of F fir sample_rate k p.detections))
        × (reports_of F fir sample_rate k (all_passings cs p)
            ≡ queue_passings k cs (detections_of F fir sample_rate k p.detections))
  unfolding run all_passings queue_after queue_passings
  run-Queues k [] p v = (refl, refl)
  run-Queues k (c ∷ cs) p v =
      let q = step F fir sample_rate c p in
      let (held, told) = run-Queues k cs q (step-IsSound F fir sample_rate c p v) in
      let e = queue-step k c p v.ordered in
      (
        held ∙ ap (queue_after k cs) e,
        rw (
          reports_of-append F fir sample_rate k (passings_at c p) (all_passings cs q),
          told,
          due-step k c p v.ordered,
          e,
        ),
      )

  -- The map of detections is, for each transponder, a queue of its own: over any history on the new
  -- detector what is held for the transponder, and the passings reported for it in their order, are
  -- those of the queue that sees only this transponder's detections and the deadlines.
  pub run-queue_after :
      (k : TransponderKey) (cs : List Event)
      → (detections_of F fir sample_rate k
            (run F fir sample_rate cs (new_detector F fir sample_rate)).detections
          ≡ queue_after k cs [])
        × (reports_of F fir sample_rate k (all_passings cs (new_detector F fir sample_rate))
            ≡ queue_passings k cs [])
  unfolding find run
  run-queue_after k cs =
      run-Queues k cs (new_detector F fir sample_rate) (run-new_detector F fir sample_rate [])

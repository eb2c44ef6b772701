-- ===== src/Passing/Detector/Hits.antt =====
-- How the detections that are appended to `PassingDetector` of src/passing.cpp and the hits of the
-- passings that it reports add up.
use openstint.Base.{
  List, [], ap, arith, if◌then◌else◌, length, length-append, length-drop, ltb, some, ℕ, ◌&&◌, ◌++◌,
  ◌+◌, ◌∷◌, ◌≡◌,
}
use openstint.Float.{Float}
use openstint.Passing.System.{TransponderKey, same_key}
use openstint.Passing.Point.{Detection}
use openstint.Passing.Detector.{
  Detections, Passing, new_detector, is_over, detections_of, create_passing, detection_msg_limit,
}
use openstint.Passing.Detector.Reports.{reports_of, due}
use openstint.Passing.Detector.Bounded.{
  Call, appends, syncs_at, reports_passings, reports_timesyncs, run,
}
use openstint.Passing.Detector.Queue.{
  all_passings, queue_step, queue_after, queue_passings, run-queue_after,
}

module _ (F : Float) (fir : List F.R → List F.R → List F.R) (sample_rate : ℕ) where
  abbrev Ds : Type 0
  Ds = Detections F fir sample_rate

  abbrev Event : Type 0
  Event = Call F fir sample_rate

  -- The hits of passings, all together.
  pub hits_in : List (Passing F fir sample_rate) → ℕ
  hits_in [] = 0
  hits_in (p ∷ ps) = p.hits + hits_in ps

  -- How many detections of the transponder the calls append.
  unfoldable pub appended_to : TransponderKey → List Event → ℕ
  appended_to k [] = 0
  appended_to k (appends j d ∷ cs) = (if same_key j k then 1 else 0) + appended_to k cs
  appended_to k (syncs_at ts tts ∷ cs) = appended_to k cs
  appended_to k (reports_passings deadline ∷ cs) = appended_to k cs
  appended_to k (reports_timesyncs margin ∷ cs) = appended_to k cs

  -- The detections that a call makes the queue forget without a passing: the oldest of a full queue,
  -- and one that stayed alone until the deadline.
  abbrev pub forgotten_at : TransponderKey → Event → Ds → ℕ
  forgotten_at k (appends j d) ds =
      if same_key j k && ltb detection_msg_limit (length ds + 1) then 1 else 0
  forgotten_at k (syncs_at ts tts) ds = 0
  forgotten_at k (reports_passings deadline) ds =
      if is_over F fir sample_rate deadline ds && ltb (length ds) 2 then 1 else 0
  forgotten_at k (reports_timesyncs margin) ds = 0

  pub forgotten : TransponderKey → List Event → Ds → ℕ
  forgotten k [] ds = 0
  forgotten k (c ∷ cs) ds =
      forgotten_at k c ds + forgotten k cs (queue_step F fir sample_rate k c ds)

  hits_in-append :
      (ps qs : List (Passing F fir sample_rate)) → hits_in (ps ++ qs) ≡ hits_in ps + hits_in qs
  unfolding hits_in
  hits_in-append [] qs = omega arith
  hits_in-append (p ∷ ps) qs = omega (arith, hits_in-append ps qs)

  hits_in-due :
      (deadline : ℕ) (k : TransponderKey) (ds : Ds)
      → hits_in (due F fir sample_rate deadline k (some ds))
          + length (queue_step F fir sample_rate k (reports_passings deadline) ds)
          + forgotten_at k (reports_passings deadline) ds
        ≡ length ds
  unfolding hits_in create_passing
  hits_in-due deadline k [] = omega arith
  hits_in-due deadline k (d ∷ ds) = ground arith

  length-queue_step :
      (k j : TransponderKey) (d : Detection F fir sample_rate) (ds : Ds)
      → length (queue_step F fir sample_rate k (appends j d) ds) + forgotten_at k (appends j d) ds
        ≡ length ds + (if same_key j k then 1 else 0)
  length-queue_step k j d ds =
      ground (arith, length-append {0} ds (d ∷ []), length-drop 1 (ds ++ d ∷ []))

  queue_hits :
      (k : TransponderKey) (cs : List Event) (ds : Ds)
      → hits_in (queue_passings F fir sample_rate k cs ds)
          + length (queue_after F fir sample_rate k cs ds)
          + forgotten k cs ds
        ≡ length ds + appended_to k cs
  unfolding queue_passings queue_after appended_to forgotten hits_in
  queue_hits k [] ds = omega arith
  queue_hits k (appends j d ∷ cs) ds =
      let next = queue_step F fir sample_rate k (appends j d) ds in
      omega (arith, length-queue_step k j d ds, queue_hits k cs next)
  queue_hits k (syncs_at ts tts ∷ cs) ds = omega (arith, queue_hits k cs ds)
  queue_hits k (reports_passings deadline ∷ cs) ds =
      let next = queue_step F fir sample_rate k (reports_passings deadline) ds in
      omega (
        arith,
        hits_in-append (due F fir sample_rate deadline k (some ds))
            (queue_passings F fir sample_rate k cs next),
        hits_in-due deadline k ds,
        queue_hits k cs next,
      )
  queue_hits k (reports_timesyncs margin ∷ cs) ds = omega (arith, queue_hits k cs ds)

  -- Every detection counts once: over any history on the new detector, the detections that were
  -- appended for a transponder are the hits of all passings reported for it, those still held for it,
  -- and those that its queue forgot, the oldest of a full one or one alone at a deadline.
  pub hits_in-all_passings :
      (k : TransponderKey) (cs : List Event)
      → hits_in (
            reports_of F fir sample_rate k
              (all_passings F fir sample_rate cs (new_detector F fir sample_rate)))
          + length (
              detections_of F fir sample_rate k
                (run F fir sample_rate cs (new_detector F fir sample_rate)).detections)
          + forgotten k cs []
        ≡ appended_to k cs
  hits_in-all_passings k cs =
      let (kept, told) = run-queue_after F fir sample_rate k cs in
      omega (arith, ap length kept, ap hits_in told, queue_hits k cs [])

-- ===== src/Passing/Detector/Bounded.antt =====
-- The detector's map over any history, and the time-sync test near the start of the clock.
use openstint.Base.{
  IsOrdered, List, Map, [], arith, assign, assign-IsOrdered, drop, erase, erase-IsOrdered, false,
  find, if◌then◌else◌, length, length-append, length-drop, ltb, ℕ, ◌%◌, ◌++◌, ◌+◌, ◌-◌, ◌<◌, ◌^◌,
  ◌∷◌, ◌≡◌, ◌≤◌, ℕ_key,
}
use openstint.Float.{Float}
use openstint.Passing.System.{TransponderKey, transponder_key}
use openstint.Passing.Point.{Detection}
use openstint.Passing.Detector.{
  Detections, PassingDetector, new_detector, append, timesync, erasable, erase_all,
  identify_passings, identify_timesyncs, matches, detections_of, detection_msg_limit,
}

module _ (F : Float) (fir : List F.R → List F.R → List F.R) (sample_rate : ℕ) where
  -- Every queue is non-empty and within its limit.
  abbrev pub Queues : Map TransponderKey (Detections F fir sample_rate) → Type 0
  Queues [] = Unit {0}
  Queues ((k, ds) ∷ m) = (1 ≤ length ds) × (length ds ≤ detection_msg_limit) × Queues m

  pub record IsSound (p : PassingDetector F fir sample_rate) : Type 0 where
    pub ordered : IsOrdered p.detections
    pub queues : Queues p.detections

  assign-Queues :
      (k : TransponderKey) (ds : Detections F fir sample_rate)
      (m : Map TransponderKey (Detections F fir sample_rate))
      → 1 ≤ length ds
      → length ds ≤ detection_msg_limit
      → Queues m
      → Queues (assign k ds m)
  unfolding assign
  assign-Queues k ds [] lo hi q = (lo, hi, tt)
  assign-Queues k ds ((j, es) ∷ m) lo hi q = ground (arith, assign-Queues k ds m lo hi q.2)

  erase-Queues :
      (k : TransponderKey) (m : Map TransponderKey (Detections F fir sample_rate))
      → Queues m
      → Queues (erase k m)
  unfolding erase
  erase-Queues k [] q = tt
  erase-Queues k ((j, es) ∷ m) q = ground (arith, erase-Queues k m q.2)

  erase_all-Sound :
      (keys : List TransponderKey) (m : Map TransponderKey (Detections F fir sample_rate))
      → IsOrdered m
      → Queues m
      → IsOrdered (erase_all F fir sample_rate keys m) × Queues (erase_all F fir sample_rate keys m)
  unfolding erase_all
  erase_all-Sound [] m o q = (o, q)
  erase_all-Sound (k ∷ keys) m o q =
      erase_all-Sound keys (erase k m) (erase-IsOrdered k m o) (erase-Queues k m q)

  find-Queues :
      (k : TransponderKey) (m : Map TransponderKey (Detections F fir sample_rate))
      → Queues m
      → length (detections_of F fir sample_rate k m) ≤ detection_msg_limit
  unfolding find
  find-Queues k [] q = omega arith
  find-Queues k ((j, es) ∷ m) q = ground (arith, find-Queues k m q.2)

  append-IsSound :
      (k : TransponderKey) (d : Detection F fir sample_rate) (p : PassingDetector F fir sample_rate)
      → IsSound p
      → IsSound (append F fir sample_rate k d p)
  unfolding append
  append-IsSound k d p v =
      let old : Detections F fir sample_rate = detections_of F fir sample_rate k p.detections in
      let grown : Detections F fir sample_rate = old ++ d ∷ [] in
      let next : Detections F fir sample_rate =
        (if ltb detection_msg_limit (length grown) then drop 1 grown else grown) in
      let bounds : (1 ≤ length next) × (length next ≤ detection_msg_limit) = ground (
        arith,
        length-append {0} old (d ∷ []),
        length-drop 1 grown,
        find-Queues k p.detections v.queues,
      ) in
      record {
        ordered = assign-IsOrdered k next p.detections v.ordered;
        queues = assign-Queues k next p.detections bounds.0 bounds.1 v.queues;
      }

  -- The calls that change the detector.
  pub data Call : Type 0 where
    appends : TransponderKey → Detection F fir sample_rate → Call
    syncs_at : ℕ → ℕ → Call
    reports_passings : ℕ → Call
    reports_timesyncs : ℕ → Call

  unfoldable pub step : Call → PassingDetector F fir sample_rate → PassingDetector F fir sample_rate
  step (appends k d) p = append F fir sample_rate k d p
  step (syncs_at ts tts) p = timesync F fir sample_rate ts tts p
  step (reports_passings deadline) p = (identify_passings F fir sample_rate deadline p).1
  step (reports_timesyncs margin) p = (identify_timesyncs F fir sample_rate margin p).1

  unfoldable pub run :
      List Call → PassingDetector F fir sample_rate → PassingDetector F fir sample_rate
  run [] p = p
  run (c ∷ cs) p = run cs (step c p)

  pub step-IsSound :
      (c : Call) (p : PassingDetector F fir sample_rate) → IsSound p → IsSound (step c p)
  unfolding step timesync identify_passings identify_timesyncs
  step-IsSound (appends k d) p v = append-IsSound k d p v
  step-IsSound (syncs_at ts tts) p v = record { ordered = v.ordered; queues = v.queues }
  step-IsSound (reports_passings deadline) p v =
      let (o, q) =
        erase_all-Sound (erasable F fir sample_rate deadline p.detections) p.detections v.ordered
          v.queues in
      record { ordered = o; queues = q }
  step-IsSound (reports_timesyncs margin) p v = record { ordered = v.ordered; queues = v.queues }

  run-IsSound :
      (cs : List Call) (p : PassingDetector F fir sample_rate) → IsSound p → IsSound (run cs p)
  unfolding run
  run-IsSound [] p v = v
  run-IsSound (c ∷ cs) p v = run-IsSound cs (step c p) (step-IsSound c p v)

  -- After any history of calls on the new detector, the map's keys rise strictly, no queue of
  -- detections is empty, and none is longer than 4096.
  pub run-new_detector : (cs : List Call) → IsSound (run cs (new_detector F fir sample_rate))
  run-new_detector cs =
      run-IsSound cs (new_detector F fir sample_rate) (record { ordered = tt; queues = tt })

  -- A time-sync message that came after the first detection of a transponder is not matched to it
  -- while that detection is younger than the margin on the clock: the `uint64_t` difference wraps.
  pub matches_early :
      (margin timestamp : ℕ) (d : Detection F fir sample_rate) (ds : Detections F fir sample_rate)
      → d.timestamp < margin
      → margin < 2 ^ 32
      → timestamp < 2 ^ 63
      → matches F fir sample_rate margin timestamp (d ∷ ds) ≡ false
  unfolding matches
  matches_early margin timestamp d ds early small_margin small =
      let far : ltb ((d.timestamp + 2 ^ 64 - margin) % 2 ^ 64) timestamp ≡ false = ground arith in
      rw far

-- ===== src/Tests/Detecting.antt =====
-- Tests of the passing detector.
use openstint.Base.{List, [], arith, false, find, length, refl, ℕ, ◌*◌, ◌+◌, ◌∷◌, ◌≡◌, ℕ_key}
use openstint.Base.Int.{negsuc}
use openstint.Passing.System.{TransponderKey, transponder_key, opn, amb}
use openstint.Passing.Point.{Detection}
use openstint.Passing.Detector.{
  PassingDetector, new_detector, identify_passings, create_passing, matches, Detections,
  detections_of,
}
use openstint.Passing.Detector.Reports.{reports-identify_passings, reports_of}
use openstint.Passing.Detector.Bounded.{
  IsSound, run-new_detector, matches_early, Call, appends, syncs_at, reports_passings,
  reports_timesyncs,
}
use openstint.Passing.Detector.Bounded
use openstint.Passing.Detector.Queue.{queue_after, queue_passings, all_passings, run-queue_after}
use openstint.Passing.Detector.Hits.{hits_in, appended_to, forgotten, hits_in-all_passings}
use openstint.Tests.{whole, keep, rate}

abbrev seen : ℕ → Detection whole keep rate
seen t = record { timestamp = t; timecode = t * 5; rssi = negsuc 19 }

abbrev car : TransponderKey
car = record { system = opn; id = 3456789 }

abbrev other : TransponderKey
other = record { system = amb; id = 1234 }

-- One car has passed, the other is still in range.
abbrev track : PassingDetector whole keep rate
track = record {
  detections = (car, seen 1000 ∷ seen 3000 ∷ []) ∷ (other, seen 2000 ∷ seen 900000 ∷ []) ∷ [];
  timesync_messages = [];
}

reports-identify_passings_example :
    reports_of whole keep rate car (identify_passings whole keep rate 500000 track).0
    ≡ create_passing whole keep rate car (seen 1000) (seen 3000 ∷ []) ∷ []
unfolding find
reports-identify_passings_example =
    reports-identify_passings whole keep rate car 500000 track (refl, tt)

abbrev calls : List (Call whole keep rate)
calls =
    appends car (seen 1000)
    ∷ syncs_at 1500 77
    ∷ reports_timesyncs 500000
    ∷ appends other (seen 2000)
    ∷ appends car (seen 3000)
    ∷ reports_passings 2500
    ∷ []

run-new_detector_example :
    IsSound whole keep rate
      (openstint.Passing.Detector.Bounded.run whole keep rate calls (new_detector whole keep rate))
run-new_detector_example = run-new_detector whole keep rate calls

matches_early_example : matches whole keep rate 500000 2000 (seen 1000 ∷ seen 3000 ∷ []) ≡ false
matches_early_example =
    matches_early whole keep rate 500000 2000 (seen 1000) (seen 3000 ∷ []) (omega arith)
      (omega arith) (omega arith)

-- A car passes and comes back.
abbrev laps : List (Call whole keep rate)
laps =
    appends car (seen 1000)
    ∷ appends other (seen 2000)
    ∷ appends car (seen 3000)
    ∷ reports_passings 500000
    ∷ appends car (seen 900000)
    ∷ []

abbrev after_laps : PassingDetector whole keep rate
after_laps =
    openstint.Passing.Detector.Bounded.run whole keep rate laps (new_detector whole keep rate)

run-queue_after_example :
    (detections_of whole keep rate car after_laps.detections ≡ seen 900000 ∷ [])
    × (reports_of whole keep rate car
          (all_passings whole keep rate laps (new_detector whole keep rate))
        ≡ create_passing whole keep rate car (seen 1000) (seen 3000 ∷ []) ∷ [])
unfolding queue_after queue_passings
run-queue_after_example = run-queue_after whole keep rate car laps

hits_in-all_passings_example :
    hits_in whole keep rate (
        reports_of whole keep rate car
          (all_passings whole keep rate laps (new_detector whole keep rate)))
      + length (detections_of whole keep rate car after_laps.detections)
      + forgotten whole keep rate car laps []
    ≡ 3
unfolding appended_to
hits_in-all_passings_example = hits_in-all_passings whole keep rate car laps

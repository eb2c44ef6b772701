-- ===== src/Passing/Detector.antt =====
-- `PassingDetector` of src/passing.cpp. Each method holds the mutex for its whole body.
pub mod Reports
pub mod Bounded
pub mod Queue
pub mod Hits
use openstint.Base.{
  Bool, List, Map, Option, [], assign, drop, erase, false, find, if◌then◌else◌, last_or, leb,
  length, ltb, none, some, ℕ, ◌%◌, ◌&&◌, ◌++◌, ◌+◌, ◌-◌, ◌^◌, ◌∷◌, ℕ_key,
}
use openstint.Float.{Float}
use openstint.Passing.System.{
  TransponderSystem, TransponderKey, transponder_system, transponder_key, same_system,
}
use openstint.Passing.Point.{Detection, PassingPoint, compute_passing_point}

abbrev pub report_hit_limit : ℕ
report_hit_limit = 2

-- `1<<12`
abbrev pub detection_msg_limit : ℕ
detection_msg_limit = 4096

pub record TimeSyncMsg : Type 0 where
  pub decoder_timestamp : ℕ
  pub transponder_timestamp : ℕ

pub record TimeSync : Type 0 where
  pub timestamp : ℕ
  pub key : TransponderKey
  pub transponder_timestamp : ℕ

module _ (F : Float) (fir : List F.R → List F.R → List F.R) (sample_rate : ℕ) where
  abbrev pub Detections : Type 0
  Detections = List (Detection F fir sample_rate)

  pub record PassingDetector : Type 0 where
    pub detections : Map TransponderKey Detections
    pub timesync_messages : List TimeSyncMsg

  abbrev pub new_detector : PassingDetector
  new_detector = record { detections = []; timesync_messages = [] }

  pub record Passing : Type 0 where
    pub timestamp : ℕ
    pub key : TransponderKey
    pub rssi : F.R
    pub hits : ℕ
    pub duration : ℕ

  abbrev pub detections_of : TransponderKey → Map TransponderKey Detections → Detections
  detections_of key m = elim (find key m) [ none ↦ [] | some ds ↦ ds ]

  unfoldable pub append :
      TransponderKey → Detection F fir sample_rate → PassingDetector → PassingDetector
  append key d p =
      let grown = detections_of key p.detections ++ d ∷ [] in
      record p {
        detections =
            assign key (if ltb detection_msg_limit (length grown) then drop 1 grown else grown)
              p.detections;
      }

  unfoldable pub timesync : ℕ → ℕ → PassingDetector → PassingDetector
  timesync timestamp transponder_timestamp p = record p {
    timesync_messages =
        p.timesync_messages
        ++ record {
          decoder_timestamp = timestamp;
          transponder_timestamp = transponder_timestamp % 2 ^ 32;
        }
          ∷ [];
  }

  unfoldable pub create_passing :
      TransponderKey → Detection F fir sample_rate → Detections → Passing
  create_passing key d ds =
      let stats = compute_passing_point F fir sample_rate d ds in
      record {
        timestamp = stats.weighted_timestamp;
        key = key;
        rssi = stats.max_rssi;
        hits = length (d ∷ ds);
        duration = stats.duration;
      }

  -- `!detections.empty() && detections.back().timestamp <= deadline`
  abbrev pub is_over : ℕ → Detections → Bool
  is_over deadline [] = false
  is_over deadline (d ∷ ds) = leb (last_or ds d).timestamp deadline

  -- The keys of `erasable_entries`.
  unfoldable pub erasable : ℕ → Map TransponderKey Detections → List TransponderKey
  erasable deadline [] = []
  erasable deadline ((key, ds) ∷ m) =
      let rest = erasable deadline m in if is_over deadline ds then key ∷ rest else rest

  -- The passing that an entry of the map yields, if any.
  unfoldable pub passing_of : ℕ → TransponderKey → Detections → Option Passing
  passing_of deadline key [] = none
  passing_of deadline key (d ∷ ds) =
      let p = create_passing key d ds in
      if is_over deadline (d ∷ ds) && leb report_hit_limit p.hits then some p else none

  unfoldable pub collect : ℕ → Map TransponderKey Detections → List Passing
  unfolding passing_of
  collect deadline [] = []
  collect deadline ((key, ds) ∷ m) =
      let rest = collect deadline m in
      elim (passing_of deadline key ds) [ none ↦ rest | some p ↦ p ∷ rest ]

  unfoldable pub erase_all :
      List TransponderKey → Map TransponderKey Detections → Map TransponderKey Detections
  erase_all [] m = m
  erase_all (key ∷ keys) m = erase_all keys (erase key m)

  unfoldable pub identify_passings : ℕ → PassingDetector → List Passing × PassingDetector
  identify_passings deadline p = (
    collect deadline p.detections,
    record p { detections = erase_all (erasable deadline p.detections) p.detections },
  )

  -- `front_ok && back_ok`, with the `uint64_t` difference and sum.
  unfoldable pub matches : ℕ → ℕ → Detections → Bool
  matches margin timestamp [] = false
  matches margin timestamp (d ∷ ds) =
      ltb ((d.timestamp + 2 ^ 64 - margin) % 2 ^ 64) timestamp
      && ltb timestamp (((last_or ds d).timestamp + margin) % 2 ^ 64)

  unfoldable pub matching : ℕ → ℕ → Map TransponderKey Detections → List TransponderKey
  unfolding matches
  matching margin timestamp [] = []
  matching margin timestamp ((key, ds) ∷ m) =
      let rest = matching margin timestamp m in
      if matches margin timestamp ds then key ∷ rest else rest

  -- A message is reported if exactly one transponder matches it.
  unfoldable pub sync_of : TimeSyncMsg → List TransponderKey → List TimeSync
  sync_of msg [] = []
  sync_of msg (key ∷ []) =
      record {
        timestamp = msg.decoder_timestamp;
        key = key;
        transponder_timestamp = msg.transponder_timestamp;
      }
      ∷ []
  sync_of msg (key ∷ other ∷ keys) = []

  unfoldable pub syncs : ℕ → List TimeSyncMsg → Map TransponderKey Detections → List TimeSync
  unfolding sync_of matching
  syncs margin [] m = []
  syncs margin (msg ∷ msgs) m =
      sync_of msg (matching margin msg.decoder_timestamp m) ++ syncs margin msgs m

  unfoldable pub identify_timesyncs : ℕ → PassingDetector → List TimeSync × PassingDetector
  unfolding syncs
  identify_timesyncs margin p =
      (syncs margin p.timesync_messages p.detections, record p { timesync_messages = [] })

  -- The detections overlap the time from `from` until `until`.
  abbrev pub overlaps : ℕ → ℕ → Detections → Bool
  overlaps from until [] = false
  overlaps from until (d ∷ ds) = leb d.timestamp until && leb from (last_or ds d).timestamp

  unfoldable pub between_of : TransponderSystem → ℕ → ℕ → Map TransponderKey Detections → List ℕ
  between_of system from until [] = []
  between_of system from until ((key, ds) ∷ m) =
      let rest = between_of system from until m in
      if same_system key.system system && overlaps from until ds then key.id ∷ rest else rest

  unfoldable pub passings_between : TransponderSystem → ℕ → ℕ → PassingDetector → List ℕ
  unfolding between_of
  passings_between system from until p = between_of system from until p.detections

-- ===== src/Rc4/Trainer.antt =====
-- `RC4Trainer` of src/rc4.cpp: the buffer of recent frames and the state machine that decides when
-- the payloads of a parked car are learned. Each method holds the mutex for its whole body.
pub mod Invariant
pub mod Payloads
use openstint.Base.{
  Bool, List, Map, Option, [], assign, drop, find, if◌then◌else◌, last_or, leb, length, ltb, negb,
  none, some, ℕ, ◌%◌, ◌&&◌, ◌++◌, ◌+◌, ◌-◌, ◌==◌, ◌^◌, ◌||◌, ◌∷◌, ℕ_key,
}
use openstint.Float.{Float}

abbrev pub buffer_max_size : ℕ
buffer_max_size = 8196

pub data State : Type 0 where
  idle training finalizing : State

pub data EvaluationResult : Type 0 where
  no_action start interrupted done reset : EvaluationResult

-- `(int64_t)(a - b) > k` of two `uint64_t` and a positive `k`.
abbrev pub later_than : ℕ → ℕ → ℕ → Bool
later_than a b k = let d = (a + 2 ^ 64 - b) % 2 ^ 64 in ltb k d && ltb d (2 ^ 63)

module _ (F : Float) where
  open F use {R, lt, le, sub, neg, lit}

  pub record Entry : Type 0 where
    pub timestamp : ℕ
    pub rc4_payload : ℕ
    pub rssi : R
    pub transponder_id : ℕ

  pub record Trainer : Type 0 where
    pub state : State
    pub buffer : List Entry

  abbrev pub new_trainer : Trainer
  new_trainer = record { state = idle; buffer = [] }

  unfoldable pub append : Entry → Trainer → Trainer
  append e t =
      let grown = t.buffer ++ e ∷ [] in
      record t { buffer = if ltb buffer_max_size (length grown) then drop 1 grown else grown }

  -- `std::minmax_element` by `rssi`: the first of the smallest, the last of the largest.
  unfoldable pub min_rssi : Entry → List Entry → Entry
  min_rssi m [] = m
  min_rssi m (e ∷ es) = min_rssi (if lt e.rssi m.rssi then e else m) es

  unfoldable pub max_rssi : Entry → List Entry → Entry
  max_rssi m [] = m
  max_rssi m (e ∷ es) = max_rssi (if lt e.rssi m.rssi then m else e) es

  -- `mx->rssi - mn->rssi <= limit` over a range that starts with `e`.
  unfoldable pub spread_within : R → Entry → List Entry → Bool
  unfolding min_rssi max_rssi
  spread_within limit e es = le (sub (max_rssi e es).rssi (min_rssi e es).rssi) limit

  -- The case IDLE. `last` is `buffer.back()`, `e ∷ es` the last 128 entries.
  unfoldable pub try_start : ℕ → Entry → List Entry → Trainer → EvaluationResult × Trainer
  unfolding spread_within
  try_start now last [] t = (no_action, t)
  try_start now last (e ∷ es) t =
      if later_than now last.timestamp 100000 || le last.rssi (neg (lit 20 0))
      then (no_action, t)
      else if negb (later_than last.timestamp e.timestamp 1000000) && spread_within (lit 2 0) e es
      then (start, record { state = training; buffer = e ∷ es })
      else (no_action, t)

  -- The case TRAINING over the whole buffer `e ∷ es`.
  unfoldable pub try_finish : ℕ → Entry → List Entry → Trainer → EvaluationResult × Trainer
  unfolding spread_within
  try_finish now e es t =
      if later_than now (last_or es e).timestamp 500000
      then (interrupted, record t { state = idle })
      else if negb (spread_within (lit 3 0) e es)
      then (interrupted, record t { state = idle })
      else if leb buffer_max_size (length (e ∷ es))
      then (done, record t { state = finalizing })
      else (no_action, t)

  unfoldable pub try_reset : ℕ → Entry → Trainer → EvaluationResult × Trainer
  try_reset now last t =
      if later_than now last.timestamp 1000000
      then (reset, record t { state = idle })
      else (no_action, t)

  -- `evaluate`, by its state and its buffer. `none` is a read of the back of an empty buffer,
  -- which C++ leaves undefined.
  unfoldable pub dispatch : State → List Entry → ℕ → Trainer → Option (EvaluationResult × Trainer)
  unfolding try_start try_finish try_reset
  dispatch idle [] now t = some (no_action, t)
  dispatch idle (e ∷ es) now t =
      let size = length (e ∷ es) in
      if ltb size 128
      then some (no_action, t)
      else some (try_start now (last_or es e) (drop (size - 128) (e ∷ es)) t)
  dispatch training [] now t = none
  dispatch training (e ∷ es) now t = some (try_finish now e es t)
  dispatch finalizing [] now t = none
  dispatch finalizing (e ∷ es) now t = some (try_reset now (last_or es e) t)

  unfoldable pub evaluate : ℕ → Trainer → Option (EvaluationResult × Trainer)
  unfolding dispatch
  evaluate now t = dispatch t.state t.buffer now t

  -- `counts[e.rc4_payload]++` for each entry.
  unfoldable pub tally : List Entry → Map ℕ ℕ → Map ℕ ℕ
  tally [] counts = counts
  tally (e ∷ es) counts =
      let seen : ℕ = elim (find e.rc4_payload counts) [ none ↦ 0 | some n ↦ n ] in
      tally es (assign e.rc4_payload (seen + 1) counts)

  unfoldable pub repeated : Map ℕ ℕ → List ℕ
  repeated [] = []
  repeated ((p, n) ∷ counts) = let rest = repeated counts in if ltb 1 n then p ∷ rest else rest

  unfoldable pub registry_payloads : Trainer → List ℕ
  unfolding tally repeated
  registry_payloads t = repeated (tally t.buffer [])

  unfoldable pub first_known : List Entry → ℕ
  first_known [] = 0
  first_known (e ∷ es) =
      let rest = first_known es in if e.transponder_id == 0 then rest else e.transponder_id

  unfoldable pub preferred_transponder_id : Trainer → ℕ
  unfolding first_known
  preferred_transponder_id t = first_known t.buffer

  -- `none` is a read of an empty buffer.
  unfoldable pub buffer_timerange : Trainer → Option (ℕ × ℕ)
  buffer_timerange t = elim t.buffer [
    | [] ↦ none
    | e ∷ es ↦ some (e.timestamp, (last_or es e).timestamp)
  ]

  unfoldable pub last_rssi : Trainer → Option R
  last_rssi t = elim t.buffer [ [] ↦ none | e ∷ es ↦ some (last_or es e).rssi ]

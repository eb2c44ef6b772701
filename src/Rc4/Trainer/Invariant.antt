-- ===== src/Rc4/Trainer/Invariant.antt =====
-- Which states the trainer reaches, and what each evaluation can do.
use openstint.Base.{
  Bool, Bool-cases, List, Option, [], ap, arith, drop, false, if◌then◌else◌, inl, inr, last_or, leb,
  leb→le, length, length-append, length-drop, ltb, negb, none, refl, some, subst, sym, true, ℕ,
  ◌&&◌, ◌++◌, ◌-◌, ◌||◌, ◌∷◌, ◌≡◌, ◌≤◌, ◌⊎◌,
}
use openstint.Float.{Float}
use openstint.Rc4.Trainer.{
  State, idle, training, finalizing, EvaluationResult, no_action, start, interrupted, done, reset,
  Entry, Trainer, new_trainer, append, spread_within, try_start, try_finish, try_reset, dispatch,
  evaluate, buffer_max_size, later_than,
}

module _ (F : Float) where
  -- The buffer keeps to its limit, and outside IDLE it holds at least the 128 entries of the start.
  pub record IsSafe (t : Trainer F) : Type 0 where
    pub bounded : length t.buffer ≤ buffer_max_size
    pub filled : (t.state ≡ idle) ⊎ (128 ≤ length t.buffer)

  pub append-IsSafe : (e : Entry F) (t : Trainer F) → IsSafe t → IsSafe (append F e t)
  unfolding append
  append-IsSafe e t v =
      ground (arith, length-append t.buffer (e ∷ []), length-drop 1 (t.buffer ++ e ∷ []))

  -- What one evaluation may answer, and the trainer that it leaves.
  pub data Allowed (t : Trainer F) : EvaluationResult → Trainer F → Type 0 where
    keeps : Allowed t no_action t
    starts :
        t.state ≡ idle
        → 128 ≤ length t.buffer
        → Allowed t start
            (record { state = training; buffer = drop (length t.buffer - 128) t.buffer })
    interrupts : t.state ≡ training → Allowed t interrupted (record t { state = idle })
    finishes :
        t.state ≡ training
        → buffer_max_size ≤ length t.buffer
        → Allowed t done (record t { state = finalizing })
    resets : t.state ≡ finalizing → Allowed t reset (record t { state = idle })

  -- An answer that is there and allowed.
  abbrev pub Answers : Trainer F → Option (EvaluationResult × Trainer F) → Type 0
  Answers t none = ⊥
  Answers t (some (r, t')) = Allowed t r t'

  pub Allowed-IsSafe :
      {t : Trainer F} {r : EvaluationResult} {t' : Trainer F}
      → Allowed t r t'
      → IsSafe t
      → IsSafe t'
  Allowed-IsSafe keeps v = v
  Allowed-IsSafe {t} (starts i n) v =
      let e = length-drop (length t.buffer - 128) t.buffer in
      record { bounded = omega (arith, v.bounded); filled = inr (omega (arith, v.bounded)) }
  Allowed-IsSafe (interrupts i) v = record { bounded = v.bounded; filled = inl refl }
  Allowed-IsSafe (finishes i n) v = record { bounded = v.bounded; filled = inr (omega arith) }
  Allowed-IsSafe (resets i) v = record { bounded = v.bounded; filled = inl refl }

  if_Answers :
      (b : Bool) (t : Trainer F) {x y : EvaluationResult × Trainer F}
      → (b ≡ true → Answers t (some x))
      → (b ≡ false → Answers t (some y))
      → Answers t (some (if b then x else y))
  if_Answers true t f g = f refl
  if_Answers false t f g = g refl

  try_start-Answers :
      (now : ℕ) (last : Entry F) (tail : List (Entry F)) (t : Trainer F)
      → t.state ≡ idle
      → 128 ≤ length t.buffer
      → tail ≡ drop (length t.buffer - 128) t.buffer
      → Answers t (some (try_start F now last tail t))
  unfolding try_start
  try_start-Answers now last [] t i n e = keeps
  try_start-Answers now last (x ∷ xs) t i n e =
      if_Answers (later_than now last.timestamp 100000 || F.le last.rssi (F.neg (F.lit 20 0))) t
        (λ _. keeps)
        (λ _.
          if_Answers
            (negb (later_than last.timestamp x.timestamp 1000000)
              && spread_within F (F.lit 2 0) x xs)
            t
            (λ _.
              subst (λ l. Allowed t start (record { state = training; buffer = l })) (sym e)
                (starts i n))
            (λ _. keeps))

  try_finish-Answers :
      (now : ℕ) (e : Entry F) (es : List (Entry F)) (t : Trainer F)
      → t.state ≡ training
      → t.buffer ≡ e ∷ es
      → Answers t (some (try_finish F now e es t))
  unfolding try_finish
  try_finish-Answers now e es t i b =
      if_Answers (later_than now (last_or es e).timestamp 500000) t (λ _. interrupts i)
        (λ _.
          if_Answers (negb (spread_within F (F.lit 3 0) e es)) t (λ _. interrupts i)
            (λ _.
              if_Answers (leb buffer_max_size (length (e ∷ es))) t
                (λ full. finishes i (rw b (leb→le buffer_max_size (length (e ∷ es)) full)))
                (λ _. keeps)))

  dispatch-Answers :
      (s : State) (buffer : List (Entry F)) (now : ℕ) (t : Trainer F)
      → t.state ≡ s
      → t.buffer ≡ buffer
      → IsSafe t
      → Answers t (dispatch F s buffer now t)
  unfolding dispatch try_reset
  dispatch-Answers idle [] now t i b v = keeps
  dispatch-Answers idle (e ∷ es) now t i b v = elim (Bool-cases (ltb (length (e ∷ es)) 128)) [
    | inl small ↦ rw small keeps
    | inr big ↦ rw big (
        try_start-Answers now (last_or es e) _ t i (rw b (ground arith))
          (ap (λ l. drop (length l - 128) l) (sym b)))
  ]
  dispatch-Answers training [] now t i b v = ground (arith, ap length b, v.filled)
  dispatch-Answers training (e ∷ es) now t i b v = try_finish-Answers now e es t i b
  dispatch-Answers finalizing [] now t i b v = ground (arith, ap length b, v.filled)
  dispatch-Answers finalizing (e ∷ es) now t i b v =
      if_Answers (later_than now (last_or es e).timestamp 1000000) t (λ _. resets i) (λ _. keeps)

  -- On a safe trainer an evaluation always answers, and only as the state machine allows: START
  -- from IDLE with 128 entries, DONE from TRAINING with a full buffer, INTERRUPTED from TRAINING,
  -- RESET from FINALIZING, and else no change.
  pub evaluate-Answers : (now : ℕ) (t : Trainer F) → IsSafe t → Answers t (evaluate F now t)
  unfolding evaluate
  evaluate-Answers now t v = dispatch-Answers t.state t.buffer now t refl refl v

  -- The calls that the receiver thread and the reporting thread make, in their order.
  pub data Event : Type 0 where
    appends : Entry F → Event
    evaluates : ℕ → Event

  pub after : Option (EvaluationResult × Trainer F) → Option (Trainer F)
  after none = none
  after (some (r, t)) = some t

  pub step : Event → Trainer F → Option (Trainer F)
  unfolding after
  step (appends e) t = some (append F e t)
  step (evaluates now) t = after (evaluate F now t)

  pub run : List Event → Trainer F → Option (Trainer F)
  run [] t = some t
  run (ev ∷ evs) t = elim (step ev t) [ none ↦ none | some t' ↦ run evs t' ]

  -- A run that ends, in a safe trainer.
  abbrev pub EndsSafe : Option (Trainer F) → Type 0
  EndsSafe none = ⊥
  EndsSafe (some t) = IsSafe t

  after-EndsSafe :
      (t : Trainer F) (o : Option (EvaluationResult × Trainer F))
      → Answers t o
      → IsSafe t
      → EndsSafe (after o)
  unfolding after
  after-EndsSafe t none a v = a
  after-EndsSafe t (some (r, t')) a v = Allowed-IsSafe a v

  step-EndsSafe : (ev : Event) (t : Trainer F) → IsSafe t → EndsSafe (step ev t)
  unfolding step
  step-EndsSafe (appends e) t v = append-IsSafe e t v
  step-EndsSafe (evaluates now) t v =
      after-EndsSafe t (evaluate F now t) (evaluate-Answers now t v) v

  run_after-EndsSafe :
      (rest : Trainer F → Option (Trainer F))
      → ((t : Trainer F) → IsSafe t → EndsSafe (rest t))
      → (o : Option (Trainer F)) → EndsSafe o
      → EndsSafe (elim o [ none ↦ none | some t' ↦ rest t' ])
  run_after-EndsSafe rest h none s = s
  run_after-EndsSafe rest h (some t') s = h t' s

  run-EndsSafe : (evs : List Event) (t : Trainer F) → IsSafe t → EndsSafe (run evs t)
  unfolding run
  run-EndsSafe [] t v = v
  run-EndsSafe (ev ∷ evs) t v =
      run_after-EndsSafe (run evs) (run-EndsSafe evs) (step ev t) (step-EndsSafe ev t v)

  -- No sequence of appends and evaluations from the new trainer reads an empty buffer, and each ends
  -- with at most 8196 entries in the buffer, and with at least 128 outside the state IDLE.
  pub run-new_trainer : (evs : List Event) → EndsSafe (run evs (new_trainer F))
  run-new_trainer evs =
      run-EndsSafe evs (new_trainer F) (record { bounded = omega arith; filled = inl refl })

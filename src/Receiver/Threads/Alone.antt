-- ===== src/Receiver/Threads/Alone.antt =====
-- That the steps of the main thread, with no step of the other thread between them, are a call of
-- `report_detections` of src/commons.cpp.
use mathlib.Core.List.{append_assoc, append-nil}
use openstint.Base.{
  Bool, Bool-cases, List, Option, Option-cases, [], ap, arith, inl, inr, insert, map, none, refl,
  some, suc, sym, ℕ, ◌++◌, ◌<◌, ◌>>=◌, ◌∙◌, ◌∷◌, ◌≡◌, ◌≤◌, ℕ_key,
}
use openstint.Float.{Float}
use openstint.Transponder.{Codec}
use openstint.Reader.Liquid.{Dsp}
use openstint.Rc4.Trainer.{
  EvaluationResult, no_action, start, interrupted, done, reset, Trainer, evaluate, last_rssi,
  buffer_timerange, registry_payloads,
}
use openstint.Rc4.Lines.{print_lines}
use openstint.Statistics.{reporting_due, to_string}
use openstint.Statistics
use openstint.Receiver.{Receiver, reporting_timestamp}
use openstint.Receiver.Learning.{learn, learn_between}
use openstint.Passing.Detector.{identify_timesyncs, identify_passings}
use openstint.Receiver.Report.{
  Report, Reporter, deadline_at, sync_report, passing_report, report_status, report_received,
  report_done, report_result, report_training, resync_registry, report_detections,
}
use openstint.Receiver.Threads.Resync.{
  report_alone, with_reports, bind-id, rounds, resync_alone, length-insert,
}
use openstint.Receiver.Threads.MainLoop.{
  sleeping, Now, Point, deciding, syncing, evaluating, starting, choosing, resyncing,
  after_evaluation, evaluation_report, report_step,
}

module _ (F : Float) (dsp : Dsp F) (fir : List F.R → List F.R → List F.R) (sample_rate : ℕ)
    (codec : Codec) (mode : Bool) (now : Now) where
  abbrev R : Type 0
  R = Reporter F dsp fir sample_rate codec

  abbrev Out : Type 0
  Out = Point × List (Report F) × R

  abbrev Result : Type 0
  Result = List (Report F) × R

  abbrev alone : ℕ → Point → R → Option Out
  alone n point c = report_alone F dsp fir sample_rate codec mode now n point c

  abbrev told : List (Report F) → Option Out → Option Out
  told reports o = with_reports F dsp fir sample_rate codec mode now reports o

  abbrev enough : R → ℕ
  enough c = rounds F dsp fir sample_rate codec mode now c

  -- Eight steps before the others.
  abbrev eight : ℕ → ℕ
  eight m = suc (suc (suc (suc (suc (suc (suc (suc m)))))))

  abbrev then_resync : Option Result → Option Out
  then_resync o =
      o >>= λ p. some (sleeping, p.0, resync_registry F dsp fir sample_rate codec now.entries p.1)

  abbrev status_ts : ℕ
  status_ts = reporting_timestamp mode now.now_ts now.now_ts now.now_sysclk

  idle_end :
      (m : ℕ) (reports : List (Report F)) (c : R)
      → enough c ≤ m
      → told reports (alone m resyncing c)
        ≡ some (sleeping, reports, resync_registry F dsp fir sample_rate codec now.entries c)
  idle_end m reports c h =
      ap (told reports) (resync_alone F dsp fir sample_rate codec mode now m c h)
      ∙ ap (λ l. some (sleeping, l, resync_registry F dsp fir sample_rate codec now.entries c))
          (append-nil reports)

  id_bind : {o q : Option Out} → o ≡ q → told [] o ≡ q
  id_bind {o} e = bind-id F dsp fir sample_rate codec mode now o ∙ e

  after_start :
      (m : ℕ) (c : R)
      → enough c ≤ m
      → alone (suc m) starting c
        ≡ then_resync (report_result F dsp fir sample_rate codec start status_ts c)
  unfolding report_alone report_step report_result
  after_start m c h = elim (Option-cases (last_rssi F c.receiver.trainer)) [
    | inl e ↦ rw e refl
    | inr (rssi, e) ↦ rw e (idle_end m (Report.learn_start status_ts rssi ∷ []) c h)
  ]

  learn-bind :
      (r : Receiver F fir sample_rate codec)
      → learn F fir sample_rate codec r ≡ (
          buffer_timerange F r.trainer >>= λ range.
          some (learn_between F fir sample_rate codec range r))
  unfolding learn
  learn-bind r =
      elim (buffer_timerange F r.trainer)
        as (λ o.
          (elim o as (λ x. Option (ℕ × ℕ × Receiver F fir sample_rate codec)) [
            | none ↦ none
            | some range ↦ some (learn_between F fir sample_rate codec range r)
          ])
          ≡ (o >>= λ range. some (learn_between F fir sample_rate codec range r))) [
            | none ↦ refl
            | some range ↦ refl
          ]

  -- What was learned, as it is stored.
  abbrev learned : ℕ × ℕ → R → R
  learned range c =
      let (id, count, r) = learn_between F fir sample_rate codec range c.receiver in
      record c {
        receiver = r;
        loaded_ids = insert id c.loaded_ids;
        appended = c.appended ++ (id, print_lines (registry_payloads F c.receiver.trainer)) ∷ [];
      }

  silent_end :
      (m : ℕ) (reports : List (Report F)) (c : R)
      → enough c ≤ m
      → told [] (told [] (told [] (told [] (told reports (alone m resyncing c)))))
        ≡ some (sleeping, reports, resync_registry F dsp fir sample_rate codec now.entries c)
  silent_end m reports c h =
      ap (λ o. told [] (told [] (told [] (told [] o)))) (idle_end m reports c h)

  after_done :
      (m : ℕ) (c : R)
      → enough c < m
      → alone (suc (suc (suc (suc (suc m))))) choosing c
        ≡ then_resync (report_result F dsp fir sample_rate codec done status_ts c)
  unfolding report_alone report_step report_result report_done learn_between
  after_done m c h =
      rw (learn-bind c.receiver) (elim (Option-cases (buffer_timerange F c.receiver.trainer)) [
        | inl e ↦ rw e refl
        | inr (range, e) ↦ rw e (
            silent_end m _ (learned range c) (
              omega (
                arith,
                h,
                length-insert (learn_between F fir sample_rate codec range c.receiver).0
                    c.loaded_ids,
              )))
      ])

  after_result :
      (m : ℕ) (result : EvaluationResult) (c : R)
      → enough c < m
      → told (evaluation_report F result status_ts) (alone (eight m) (after_evaluation result) c)
        ≡ then_resync (report_result F dsp fir sample_rate codec result status_ts c)
  unfolding report_result
  after_result m no_action c h = idle_end (eight m) [] c (omega (arith, h))
  after_result m start c h = id_bind (after_start _ c (omega (arith, h)))
  after_result m interrupted c h =
      idle_end (eight m) (Report.learn_interrupted status_ts ∷ []) c (omega (arith, h))
  after_result m done c h = id_bind (after_done _ c (omega (arith, h)))
  after_result m reset c h =
      idle_end (eight m) (Report.learn_reset status_ts ∷ []) c (omega (arith, h))

  abbrev Step : Type 0
  Step = Point × List (Report F) × R

  abbrev evaluated : R → EvaluationResult × Trainer F → Option Step
  evaluated c p = some (
    after_evaluation p.0,
    evaluation_report F p.0 status_ts,
    record c { receiver = record c.receiver { trainer = p.1 } },
  )

  abbrev continued : ℕ → Step → Option Out
  continued m x = told x.1 (alone (eight m) x.0 x.2)

  after_evaluate :
      (m : ℕ) (c : R) (o : Option (EvaluationResult × Trainer F))
      → enough c < m
      → (o >>= evaluated c >>= continued m)
        ≡ then_resync (
            o >>= λ p.
            report_result F dsp fir sample_rate codec p.0 status_ts
              (record c { receiver = record c.receiver { trainer = p.1 } }))
  after_evaluate m c none h = refl
  after_evaluate m c (some p) h =
      after_result m p.0 (record c { receiver = record c.receiver { trainer = p.1 } }) h

  evaluating_alone :
      (m : ℕ) (c : R)
      → enough c < m
      → alone (suc (eight m)) evaluating c
        ≡ then_resync (report_training F dsp fir sample_rate codec status_ts now.now_ts c)
  unfolding report_alone report_step report_training
  evaluating_alone m c h = after_evaluate m c (evaluate F now.now_ts c.receiver.trainer) h

  with_reports-join :
      (a b : List (Report F)) (o : Option Result)
      → told a (told b (then_resync o)) ≡ (
          o >>= λ p.
          some (
            sleeping,
            (a ++ b) ++ p.0,
            resync_registry F dsp fir sample_rate codec now.entries p.1,
          ))
  with_reports-join a b none = refl
  with_reports-join a b (some p) =
      ap (λ l. some (sleeping, l, resync_registry F dsp fir sample_rate codec now.entries p.1))
        (sym (append_assoc a b p.0))

  abbrev resynced : List (Report F) → Option Result → Option Out
  resynced reports o = o >>= λ p.
      some (sleeping, reports ++ p.0, resync_registry F dsp fir sample_rate codec now.entries p.1)

  -- From the passing detector on.
  syncing_alone :
      (m : ℕ) (c : R)
      → enough c < m
      → alone (suc (suc (suc (eight m)))) syncing c ≡ (
          let (received, c1) =
            report_received F dsp fir sample_rate codec mode now.now_sysclk now.now_ts c in
          resynced received (report_training F dsp fir sample_rate codec status_ts now.now_ts c1))
  unfolding report_alone report_step report_received
  syncing_alone m c h =
      let (syncs, heard) = identify_timesyncs F fir sample_rate 500000 c.receiver.detector in
      let (passings, rest) = identify_passings F fir sample_rate (deadline_at F now.now_ts) heard in
      let c1 = record c { receiver = record c.receiver { detector = rest } } in
      let times =
        map (sync_report F dsp fir sample_rate codec mode now.now_ts now.now_sysclk) syncs in
      let laps =
        map (passing_report F dsp fir sample_rate codec mode now.now_ts now.now_sysclk) passings in
      ap (λ o. told times (told laps o)) (evaluating_alone m c1 h)
      ∙ with_reports-join times laps
          (report_training F dsp fir sample_rate codec status_ts now.now_ts c1)

  with_status :
      (a b : List (Report F)) (o : Option Result)
      → told [] (told a (told [] (resynced b o))) ≡ resynced (a ++ b) o
  with_status a b none = refl
  with_status a b (some p) =
      ap (λ l. some (sleeping, l, resync_registry F dsp fir sample_rate codec now.entries p.1))
        (sym (append_assoc a b p.0))

  -- Asleep again with what a call has done.
  abbrev slept : Option Result → Option Out
  slept o = o >>= λ p. some (sleeping, p.0, p.1)

  slept-resynced :
      (reports : List (Report F)) (o : Option Result)
      → resynced reports o
        ≡ slept (
            o >>= λ p.
            some (reports ++ p.0, resync_registry F dsp fir sample_rate codec now.entries p.1))
  slept-resynced reports none = refl
  slept-resynced reports (some p) = refl

  -- From the wake-up the main thread's steps, with none of the other thread's between them, come to
  -- the sleep with what one call of `report_detections` reports, and with the same done to all
  -- objects; or, where that call reads an empty buffer, they come to such a read too. Running out of
  -- the `n` steps is neither: it would be a point before the sleep.
  pub report_alone-report_detections :
      (c : R)
      → (n : ℕ) × (report_alone F dsp fir sample_rate codec mode now n deciding c ≡ (
          report_detections F dsp fir sample_rate codec mode now.now_sysclk now.now_ts now.entries c
          >>= λ p. some (sleeping, p.0, p.1)))
  unfolding report_alone report_step report_detections report_status
  report_alone-report_detections c =
      let m = suc (enough c) in
      elim (Bool-cases (reporting_due F now.now_ts c.rx_stats)) [
        | inl due ↦
            let statuses = Report.status status_ts (to_string F dsp c.rx_stats) ∷ [] in
            let c' = record c { rx_stats = openstint.Statistics.reset F now.now_ts c.rx_stats } in
            let (received, c1) =
              report_received F dsp fir sample_rate codec mode now.now_sysclk now.now_ts c' in
            (
              suc (suc (suc (suc (suc (suc (eight m)))))),
              rw due (
                  ap (λ o. told [] (told statuses (told [] o))) (syncing_alone m c' (omega arith))
                  ∙ with_status statuses received
                      (report_training F dsp fir sample_rate codec status_ts now.now_ts c1)
                  ∙ slept-resynced (statuses ++ received)
                      (report_training F dsp fir sample_rate codec status_ts now.now_ts c1)),
            )
        | inr not_yet ↦
            let (received, c1) =
              report_received F dsp fir sample_rate codec mode now.now_sysclk now.now_ts c in
            (
              suc (suc (suc (suc (eight m)))),
              rw not_yet (
                  ap (told []) (syncing_alone m c (omega arith))
                  ∙ bind-id F dsp fir sample_rate codec mode now _
                  ∙ slept-resynced received
                      (report_training F dsp fir sample_rate codec status_ts now.now_ts c1)),
            )
      ]

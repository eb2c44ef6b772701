-- ===== src/Receiver/Report/Answers.antt =====
-- That `report_detections` of src/commons.cpp comes to its end, whatever the trainer answers.
use openstint.Base.{
  Bool, List, Option, [], ap, arith, bind-some, last_or, length, length-drop, none, refl, some,
  subst, sym, ℕ, ◌-◌, ◌∙◌, ◌∷◌, ◌≡◌, ◌≤◌,
}
use openstint.Float.{Float}
use openstint.Transponder.{Codec}
use openstint.Reader.Liquid.{Dsp}
use openstint.Rc4.Trainer.{
  EvaluationResult, no_action, start, interrupted, done, reset, Trainer, evaluate, last_rssi,
  buffer_timerange,
}
use openstint.Rc4.Trainer.Invariant.{
  IsSafe, Allowed, keeps, starts, interrupts, finishes, resets, Answers, evaluate-Answers,
  Allowed-IsSafe,
}
use openstint.Rc4.FileBased.{DirectoryEntry}
use openstint.Receiver.{Receiver, reporting_timestamp}
use openstint.Receiver.Learning.{learn, learn_between, buffer_timerange-answers}
use openstint.Receiver.Report.{
  Report, Reporter, report_status, report_received, report_done, report_result, report_training,
  resync_registry, report_detections,
}

module _ (F : Float) where
  -- What the reporting of a result reads: the buffer's last entry, or its times.
  Needs : EvaluationResult → Trainer F → Type 0
  Needs start t = 1 ≤ length t.buffer
  Needs done t = 1 ≤ length t.buffer
  Needs other t = Unit

  Allowed-Needs :
      {t : Trainer F} {r : EvaluationResult} {t' : Trainer F}
      → Allowed F t r t'
      → IsSafe F t
      → Needs r t'
  unfolding Needs
  Allowed-Needs keeps v = tt
  Allowed-Needs {t} (starts i n) v = omega (arith, length-drop (length t.buffer - 128) t.buffer)
  Allowed-Needs (interrupts i) v = tt
  Allowed-Needs (finishes i n) v = omega (arith, n)
  Allowed-Needs (resets i) v = tt

  pub Answers-some :
      (t : Trainer F) (o : Option (EvaluationResult × Trainer F))
      → Answers F t o
      → (out : EvaluationResult × Trainer F) × (o ≡ some out) × Allowed F t out.0 out.1
  Answers-some t none a = absurd a
  Answers-some t (some out) a = (out, refl, a)

  pub last_rssi-answers :
      (t : Trainer F) → 1 ≤ length t.buffer → (rssi : F.R) × (last_rssi F t ≡ some rssi)
  unfolding last_rssi
  last_rssi-answers t h = answer t.buffer h
    where
      answer :
          (b : List (openstint.Rc4.Trainer.Entry F))
          → 1 ≤ length b
          → (rssi : F.R) × ((elim b as (λ x. Option F.R) [
            | [] ↦ none
            | e ∷ es ↦ some (last_or es e).rssi
          ])
              ≡ some rssi)
      answer [] h = absurd (omega arith)
      answer (e ∷ es) h = (_, refl)

module _ (F : Float) (dsp : Dsp F) (fir : List F.R → List F.R → List F.R) (sample_rate : ℕ)
    (codec : Codec) where
  abbrev C : Type 0
  C = Reporter F dsp fir sample_rate codec

  abbrev Out : Type 0
  Out = List (Report F) × C

  learn-answers :
      (r : Receiver F fir sample_rate codec)
      → 1 ≤ length r.trainer.buffer
      → (out : ℕ × ℕ × Receiver F fir sample_rate codec) × (learn F fir sample_rate codec r
          ≡ some out)
        × (out.2.trainer ≡ r.trainer)
  unfolding learn learn_between
  learn-answers r h =
      let (range, e) = buffer_timerange-answers F r.trainer h in
      (
        learn_between F fir sample_rate codec range r,
        ap
            (λ o. elim o as (λ x. Option (ℕ × ℕ × Receiver F fir sample_rate codec)) [
              | none ↦ none
              | some x ↦ some (learn_between F fir sample_rate codec x r)
            ])
            e,
        refl,
      )

  report_result-answers :
      (result : EvaluationResult) (status_ts : ℕ) (c : C)
      → Needs F result c.receiver.trainer
      → (out : Out) × (report_result F dsp fir sample_rate codec result status_ts c ≡ some out)
        × (out.1.receiver.trainer ≡ c.receiver.trainer)
  unfolding report_result report_done Needs
  report_result-answers no_action status_ts c h = (_, refl, refl)
  report_result-answers start status_ts c h =
      let (rssi, e) = last_rssi-answers F c.receiver.trainer h in
      (
        (Report.learn_start status_ts rssi ∷ [], c),
        bind-some (last_rssi F c.receiver.trainer) _ e,
        refl,
      )
  report_result-answers interrupted status_ts c h = (_, refl, refl)
  report_result-answers done status_ts c h =
      let (learned, e, same) = learn-answers c.receiver h in
      (_, bind-some (learn F fir sample_rate codec c.receiver) _ e, same)
  report_result-answers reset status_ts c h = (_, refl, refl)

  report_training-answers :
      (status_ts now_ts : ℕ) (c : C)
      → IsSafe F c.receiver.trainer
      → (out : Out) × (report_training F dsp fir sample_rate codec status_ts now_ts c ≡ some out)
        × IsSafe F out.1.receiver.trainer
  unfolding report_training
  report_training-answers status_ts now_ts c v =
      let t = c.receiver.trainer in
      let (one, e, allowed) =
        Answers-some F t (evaluate F now_ts t) (evaluate-Answers F now_ts t v) in
      let next = λ (p : EvaluationResult × Trainer F).
        report_result F dsp fir sample_rate codec p.0 status_ts
          (record c { receiver = record c.receiver { trainer = p.1 } }) in
      let (out, e', same) =
        report_result-answers one.0 status_ts
          (record c { receiver = record c.receiver { trainer = one.1 } })
          (Allowed-Needs F allowed v) in
      (
        out,
        bind-some (evaluate F now_ts t) next e ∙ e',
        subst (IsSafe F) (sym same) (Allowed-IsSafe F allowed v),
      )

  -- With a trainer whose buffer is filled as its state says, the reporting comes to its end: it
  -- never reads the entries of an empty buffer. The trainer is then again such a trainer.
  pub report_detections-answers :
      (mode_sysclk : Bool) (now_sysclk now_ts : ℕ) (entries : List DirectoryEntry) (c : C)
      → IsSafe F c.receiver.trainer
      → (out : Out) × (report_detections F dsp fir sample_rate codec mode_sysclk now_sysclk now_ts
            entries c
          ≡ some out)
        × IsSafe F out.1.receiver.trainer
  unfolding report_detections report_received resync_registry
  report_detections-answers mode_sysclk now_sysclk now_ts entries c v =
      let status_ts = reporting_timestamp mode_sysclk now_ts now_ts now_sysclk in
      let (statuses, stats) = report_status F dsp status_ts now_ts c.rx_stats in
      let (received, c1) =
        report_received F dsp fir sample_rate codec mode_sysclk now_sysclk now_ts
          (record c { rx_stats = stats }) in
      let (out, e, safe) = report_training-answers status_ts now_ts c1 v in
      (_, bind-some (report_training F dsp fir sample_rate codec status_ts now_ts c1) _ e, safe)

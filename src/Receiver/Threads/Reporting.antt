-- ===== src/Receiver/Threads/Reporting.antt =====
-- The steps of the main thread of a device program: none reads the trainer's buffer while it is
-- empty, whatever frames came since the evaluation.
use openstint.Base.{
  Bool, List, Option, [], arith, bind-some, contains, false, if◌then◌else◌, inl, inr, length, refl,
  some, sym, true, ℕ, ◌++◌, ◌∙◌, ◌∷◌, ◌≡◌, ◌≢◌, ◌≤◌, ℕ_key,
}
use openstint.Float.{Float}
use openstint.Transponder.{Codec}
use openstint.Reader.Liquid.{Dsp}
use openstint.Rc4.Trainer.{
  State, idle, training, finalizing, EvaluationResult, Trainer, evaluate, last_rssi,
  buffer_timerange,
}
use openstint.Rc4.Trainer.Invariant.{
  IsSafe, Allowed, keeps, starts, interrupts, finishes, resets, evaluate-Answers, Allowed-IsSafe,
}
use openstint.Rc4.Registry.{remove}
use openstint.Statistics.{reporting_due}
use openstint.Receiver.Learning.{buffer_timerange-answers}
use openstint.Receiver.Report.{Report, Reporter}
use openstint.Receiver.Report.Answers.{Answers-some, last_rssi-answers}
use openstint.Receiver.Threads.MainLoop.{
  Now, Point, sleeping, deciding, counting, clearing, syncing, collecting, evaluating, starting,
  choosing, gathering, ranging, between, storing, resyncing, scanning, sweeping, with_registry,
  scan_step, sweep_step, after_evaluation, report_step,
}

-- What a point in `report_detections` knows of the trainer, whose state only this thread changes.
abbrev pub Knows : Point → State → Type 0
Knows starting s = s ≡ training
Knows choosing s = s ≡ finalizing
Knows (gathering id) s = s ≡ finalizing
Knows (ranging id payloads) s = s ≡ finalizing
Knows _ s = Unit

module _ (F : Float) where
  Allowed-Knows :
      {t : Trainer F} {r : EvaluationResult} {t' : Trainer F}
      → Allowed F t r t'
      → Knows (after_evaluation r) t'.state
  Allowed-Knows keeps = tt
  Allowed-Knows (starts i n) = refl
  Allowed-Knows (interrupts i) = tt
  Allowed-Knows (finishes i n) = refl
  Allowed-Knows (resets i) = tt

  -- Outside of the state IDLE there is an entry.
  busy_length : (t : Trainer F) → IsSafe F t → t.state ≢ idle → 1 ≤ length t.buffer
  busy_length t v busy = elim v.filled [
    | inl resting ↦ absurd (busy resting)
    | inr many ↦ omega (arith, many)
  ]

training-ne-idle : training ≢ idle
training-ne-idle e = cc

finalizing-ne-idle : finalizing ≢ idle
finalizing-ne-idle e = cc

module _ (F : Float) (dsp : Dsp F) (fir : List F.R → List F.R → List F.R) (sample_rate : ℕ)
    (codec : Codec) where
  abbrev R : Type 0
  R = Reporter F dsp fir sample_rate codec

  abbrev Out : Type 0
  Out = Point × List (Report F) × R

  abbrev pub GoesOn : Option Out → Type 0
  GoesOn o =
      (out : Out) × (o ≡ some out)
      × Knows out.0 out.2.receiver.trainer.state
      × IsSafe F out.2.receiver.trainer

  next_if : (b : Bool) (s : State) → Knows (if b then counting else syncing) s
  next_if true s = tt
  next_if false s = tt

  -- The main thread is never stuck.
  pub report_step-GoesOn :
      (mode : Bool) (now : Now) (point : Point) (c : R)
      → Knows point c.receiver.trainer.state
      → IsSafe F c.receiver.trainer
      → GoesOn (report_step F dsp fir sample_rate codec mode now point c)
  unfolding report_step scan_step sweep_step
  report_step-GoesOn mode now sleeping c k v = (_, refl, tt, v)
  report_step-GoesOn mode now deciding c k v =
      (_, refl, next_if (reporting_due F now.now_ts c.rx_stats) c.receiver.trainer.state, v)
  report_step-GoesOn mode now counting c k v = (_, refl, tt, v)
  report_step-GoesOn mode now clearing c k v = (_, refl, tt, v)
  report_step-GoesOn mode now syncing c k v = (_, refl, tt, v)
  report_step-GoesOn mode now collecting c k v = (_, refl, tt, v)
  report_step-GoesOn mode now evaluating c k v =
      let t = c.receiver.trainer in
      let (one, e, allowed) =
        Answers-some F t (evaluate F now.now_ts t) (evaluate-Answers F now.now_ts t v) in
      (
        _,
        bind-some (evaluate F now.now_ts t) _ e,
        Allowed-Knows F allowed,
        Allowed-IsSafe F allowed v,
      )
  report_step-GoesOn mode now starting c k v =
      let t = c.receiver.trainer in
      let (rssi, e) =
        last_rssi-answers F t (busy_length F t v (λ i. training-ne-idle (sym k ∙ i))) in
      (_, bind-some (last_rssi F t) _ e, tt, v)
  report_step-GoesOn mode now choosing c k v = (_, refl, k, v)
  report_step-GoesOn mode now (gathering id) c k v = (_, refl, k, v)
  report_step-GoesOn mode now (ranging id payloads) c k v =
      let t = c.receiver.trainer in
      let (range, e) =
        buffer_timerange-answers F t (busy_length F t v (λ i. finalizing-ne-idle (sym k ∙ i))) in
      (_, bind-some (buffer_timerange F t) _ e, tt, v)
  report_step-GoesOn mode now (between id payloads range) c k v = (_, refl, tt, v)
  report_step-GoesOn mode now (storing id payloads) c k v = (_, refl, tt, v)
  report_step-GoesOn mode now resyncing c k v = (_, refl, tt, v)
  report_step-GoesOn mode now (scanning [] current) c k v = (_, refl, tt, v)
  report_step-GoesOn mode now (scanning (e ∷ es) current) c k v = (_, refl, tt, v)
  report_step-GoesOn mode now (sweeping before [] current) c k v = (_, refl, tt, v)
  report_step-GoesOn mode now (sweeping before (id ∷ ids) current) c k v =
      sweep-GoesOn (contains id current)
    where
      sweep-GoesOn :
          (stays : Bool)
          → GoesOn (
              let out : Point × R =
                (if stays then (sweeping (before ++ id ∷ []) ids current, c) else (
                  sweeping before ids current,
                  with_registry F dsp fir sample_rate codec
                      (record { base = remove id c.receiver.registry; loaded_ids = before ++ ids })
                      c,
                )) in
              some (out.0, [], out.1))
      sweep-GoesOn true = (_, refl, tt, v)
      sweep-GoesOn false = (_, refl, tt, v)

-- ===== src/Receiver/Learning.antt =====
-- The branch DONE of `report_detections` in src/commons.cpp: the payloads of the trainer's buffer are
-- stored. Of `RC4FileBasedRegistry::store` the part that it inherits is here, not the file that it
-- writes.
use openstint.Base.{
  List, Option, [], ap, arith, if◌then◌else◌, last_or, length, ltb, none, refl, some, ℕ, ◌==◌, ◌∷◌,
  ◌≡◌, ◌≤◌,
}
use openstint.Float.{Float}
use openstint.Transponder.{Codec}
use openstint.Passing.System.{amb}
use openstint.Passing.Detector.{passings_between}
use openstint.Rc4.Registry.{lookup, store}
use openstint.Rc4.Registry.Laws.{lookup-store}
use openstint.Rc4.Trainer.{
  Entry, Trainer, registry_payloads, preferred_transponder_id, buffer_timerange,
}
use openstint.Rc4.Trainer.Payloads.{occurrences, contains-registry_payloads}
use openstint.Receiver.{Receiver}

-- The id to store under: the one detected transponder, where the buffer names none.
unfoldable pub choose_id : ℕ → List ℕ → ℕ
choose_id preferred [] = preferred
choose_id preferred (t ∷ []) = if preferred == 0 then t else preferred
choose_id preferred (t ∷ u ∷ ts) = preferred

module _ (F : Float) where
  range_of :
      (b : List (Entry F))
      → 1 ≤ length b
      → (range : ℕ × ℕ) × ((elim b as (λ x. Option (ℕ × ℕ)) [
        | [] ↦ none
        | e ∷ es ↦ some (e.timestamp, (last_or es e).timestamp)
      ])
          ≡ some range)
  range_of [] h = absurd (omega arith)
  range_of (e ∷ es) h = ((e.timestamp, (last_or es e).timestamp), refl)

  pub buffer_timerange-answers :
      (t : Trainer F) → 1 ≤ length t.buffer → (range : ℕ × ℕ) × (buffer_timerange F t ≡ some range)
  unfolding buffer_timerange
  buffer_timerange-answers t h = range_of t.buffer h

module _ (F : Float) (fir : List F.R → List F.R → List F.R) (sample_rate : ℕ) (codec : Codec) where
  -- The id and the number of payloads of the report, beside the receiver, for the time range of the
  -- buffer.
  unfoldable pub learn_between :
      ℕ × ℕ → Receiver F fir sample_rate codec → ℕ × ℕ × Receiver F fir sample_rate codec
  learn_between range r =
      let payloads = registry_payloads F r.trainer in
      let detected = passings_between F fir sample_rate amb range.0 range.1 r.detector in
      let id = choose_id (preferred_transponder_id F r.trainer) detected in
      let stored = store id payloads r.registry in
      (stored.0, length payloads, record r { registry = stored.1 })

  -- `none` is a read of an empty buffer.
  unfoldable pub learn :
      Receiver F fir sample_rate codec → Option (ℕ × ℕ × Receiver F fir sample_rate codec)
  unfolding learn_between
  learn r = elim (buffer_timerange F r.trainer) [
    | none ↦ none
    | some range ↦ some (learn_between range r)
  ]

  learn_between-lookup :
      (q : ℕ) (range : ℕ × ℕ) (r : Receiver F fir sample_rate codec)
      → lookup q (learn_between range r).2.registry ≡ (
          if ltb 1 (occurrences F q r.trainer.buffer)
          then some (learn_between range r).0
          else lookup q r.registry)
  unfolding learn_between
  learn_between-lookup q range r = rw (
    lookup-store q
        (choose_id (preferred_transponder_id F r.trainer)
          (passings_between F fir sample_rate amb range.0 range.1 r.detector))
        (registry_payloads F r.trainer) r.registry,
    contains-registry_payloads F q r.trainer,
  )

  -- After the training is done on a buffer that is not empty, exactly the payloads that stand more
  -- than once in the buffer are found under the reported id, and every other is found as before.
  pub lookup-learn :
      (q : ℕ) (r : Receiver F fir sample_rate codec)
      → 1 ≤ length r.trainer.buffer
      → (out : ℕ × ℕ × Receiver F fir sample_rate codec) × (learn r ≡ some out)
        × (lookup q out.2.registry ≡ (
            if ltb 1 (occurrences F q r.trainer.buffer) then some out.0 else lookup q r.registry))
  unfolding learn
  lookup-learn q r h =
      let (range, e) = buffer_timerange-answers F r.trainer h in
      (
        learn_between range r,
        ap
            (λ o. elim o as (λ x. Option (ℕ × ℕ × Receiver F fir sample_rate codec)) [
              | none ↦ none
              | some x ↦ some (learn_between x r)
            ])
            e,
        learn_between-lookup q range r,
      )

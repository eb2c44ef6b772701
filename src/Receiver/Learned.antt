-- ===== src/Receiver/Learned.antt =====
-- RC4 frames in `process_frame` of src/commons.cpp, after their payload was stored.
use openstint.Base.{Bool, List, Option, ap, contains, none, refl, some, true, ℕ, ◌∙◌, ◌≡◌, ℕ_key}
use openstint.Float.{Float}
use openstint.Transponder.{Codec, rc4}
use openstint.Frame.{Frame, bits}
use openstint.Rc4.Message.{rc4_message}
use openstint.Rc4.Registry.{lookup, store}
use openstint.Rc4.Registry.Laws.{lookup-store}
use openstint.Receiver.{Receiver, detect, train, on_rc4, on_payload, process_frame}
use openstint.Receiver.Answers.{process_frame_found}

module _ (F : Float) (fir : List F.R → List F.R → List F.R) (sample_rate : ℕ) (codec : Codec) where
  abbrev Out : Type 0
  Out = Bool × Receiver F fir sample_rate codec

  on_payload-known :
      (f : Frame F) (soft : List ℕ) (r : Receiver F fir sample_rate codec) (id p : ℕ)
      → rc4_message soft ≡ some (record { payload = p; is_valid = true })
      → lookup p r.registry ≡ some id
      → on_payload F fir sample_rate codec rc4 f soft r
        ≡ some (true, train F fir sample_rate codec f id p (detect F fir sample_rate codec f id r))
  unfolding on_payload on_rc4
  on_payload-known f soft r id p valid known =
      ap
        (λ o. elim o as (λ x. Option Out) [
          | none ↦ none
          | some m ↦ some (on_rc4 F fir sample_rate codec f m (lookup m.payload r.registry) r)
        ])
        valid
      ∙ ap
          (λ o.
            some (on_rc4 F fir sample_rate codec f (record { payload = p; is_valid = true }) o r))
          known

  -- An RC4 frame with a valid message, after its payload was stored under an id: the frame goes to
  -- the detector and to the trainer under the id that the store returned.
  pub process_frame_stored :
      (f f' : Frame F) (r : Receiver F fir sample_rate codec) (id p : ℕ) (ps soft : List ℕ)
      → f.transponder_protocol ≡ rc4
      → bits F f ≡ (some soft, f')
      → rc4_message soft ≡ some (record { payload = p; is_valid = true })
      → contains p ps ≡ true
      → (let stored = store id ps r.registry in
          let r' : Receiver F fir sample_rate codec = record r { registry = stored.1 } in
          process_frame F fir sample_rate codec f r'
          ≡ some (
            true,
            train F fir sample_rate codec f' stored.0 p
                (detect F fir sample_rate codec f' stored.0 r'),
          ))
  process_frame_stored f f' r id p ps soft is_rc4 found valid known =
      let stored = store id ps r.registry in
      let r' : Receiver F fir sample_rate codec = record r { registry = stored.1 } in
      let finds : lookup p stored.1 ≡ some stored.0 =
        rw (lookup-store p id ps r.registry, known) refl in
      process_frame_found F fir sample_rate codec f f' soft r' found
      ∙ ap (λ protocol. on_payload F fir sample_rate codec protocol f' soft r') is_rc4
      ∙ on_payload-known f' soft r' stored.0 p valid finds

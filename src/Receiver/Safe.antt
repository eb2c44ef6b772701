-- ===== src/Receiver/Safe.antt =====
-- What `process_frame` of src/commons.cpp does to the trainer: it gets the frames of RC4, and is left
-- alone by the others.
use openstint.Base.{
  Bool, Bool-cases, List, Option, arith, false, inl, inr, none, some, subst, sym, ℕ, ◌≡◌,
}
use openstint.Float.{Float}
use openstint.Transponder.{Codec, TransponderProtocol, open_stint, rc3, rc4}
use openstint.Transponder.Rc3.{Rc3Result, decode_rc3}
use openstint.Frame.{Frame, bits}
use openstint.Rc4.Message.{Rc4Message, rc4_message}
use openstint.Rc4.Registry.{lookup}
use openstint.Rc4.Trainer.Invariant.{IsSafe, append-IsSafe}
use openstint.Receiver.{
  Receiver, detect, train, on_open_stint, on_rc3, on_rc4, on_payload, process_frame,
}

module _ (F : Float) (fir : List F.R → List F.R → List F.R) (sample_rate : ℕ) (codec : Codec) where
  abbrev Rx : Type 0
  Rx = Receiver F fir sample_rate codec

  on_open_stint-trainer :
      (f : Frame F) (soft : List ℕ) (r : Rx)
      → (on_open_stint F fir sample_rate codec f soft r).1.trainer ≡ r.trainer
  unfolding on_open_stint detect
  on_open_stint-trainer f soft r = ground arith

  on_rc3-trainer :
      (f : Frame F) (m : Rc3Result) (r : Rx)
      → (on_rc3 F fir sample_rate codec f m r).1.trainer ≡ r.trainer
  unfolding on_rc3 detect
  on_rc3-trainer f m r = ground arith

  train-IsSafe :
      (f : Frame F) (id payload : ℕ) (r : Rx)
      → IsSafe F r.trainer
      → IsSafe F (train F fir sample_rate codec f id payload r).trainer
  unfolding train
  train-IsSafe f id payload r v = append-IsSafe F _ r.trainer v

  on_rc4-IsSafe :
      (f : Frame F) (m : Rc4Message) (found : Option ℕ) (r : Rx)
      → IsSafe F r.trainer
      → IsSafe F (on_rc4 F fir sample_rate codec f m found r).1.trainer
  unfolding on_rc4 detect
  on_rc4-IsSafe f m none r v = elim (Bool-cases m.is_valid) [
    | inl valid ↦ rw valid (train-IsSafe f 0 m.payload r v)
    | inr torn ↦ rw torn v
  ]
  on_rc4-IsSafe f m (some id) r v = elim (Bool-cases m.is_valid) [
    | inl valid ↦ rw valid (train-IsSafe f id m.payload (detect F fir sample_rate codec f id r) v)
    | inr torn ↦ rw torn v
  ]

  abbrev AfterSafe : Option (Bool × Rx) → Type 0
  AfterSafe none = Unit
  AfterSafe (some out) = IsSafe F out.1.trainer

  on_payload-IsSafe :
      (p : TransponderProtocol) (f : Frame F) (soft : List ℕ) (r : Rx)
      → IsSafe F r.trainer
      → AfterSafe (on_payload F fir sample_rate codec p f soft r)
  unfolding on_payload
  on_payload-IsSafe open_stint f soft r v =
      subst (IsSafe F) (sym (on_open_stint-trainer f soft r)) v
  on_payload-IsSafe rc3 f soft r v =
      elim (decode_rc3 soft)
        as (λ o.
          AfterSafe
            (elim o [ none ↦ none | some m ↦ some (on_rc3 F fir sample_rate codec f m r) ])) [
              | none ↦ tt
              | some m ↦ subst (IsSafe F) (sym (on_rc3-trainer f m r)) v
            ]
  on_payload-IsSafe rc4 f soft r v =
      elim (rc4_message soft)
        as (λ o. AfterSafe (elim o [
          | none ↦ none
          | some m ↦ some (on_rc4 F fir sample_rate codec f m (lookup m.payload r.registry) r)
        ])) [ none ↦ tt | some m ↦ on_rc4-IsSafe f m (lookup m.payload r.registry) r v ]

  process_frame-AfterSafe :
      (f : Frame F) (r : Rx)
      → IsSafe F r.trainer
      → AfterSafe (process_frame F fir sample_rate codec f r)
  unfolding process_frame
  process_frame-AfterSafe f r v =
      elim (bits F f).0
        as (λ o. AfterSafe (elim o [
          | none ↦ some (false, r)
          | some soft ↦
              on_payload F fir sample_rate codec (bits F f).1.transponder_protocol (bits F f).1 soft
                r
        ])) [
          | none ↦ v
          | some soft ↦ on_payload-IsSafe (bits F f).1.transponder_protocol (bits F f).1 soft r v
        ]

  -- Whatever frame comes, the trainer keeps to its limits.
  pub process_frame-IsSafe :
      (f : Frame F) (r : Rx) (out : Bool × Rx)
      → process_frame F fir sample_rate codec f r ≡ some out
      → IsSafe F r.trainer
      → IsSafe F out.1.trainer
  process_frame-IsSafe f r out e v = subst AfterSafe e (process_frame-AfterSafe f r v)

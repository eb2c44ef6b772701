-- ===== src/Receiver/Outcome.antt =====
-- What a frame that `process_frame` of src/commons.cpp turns down leaves behind.
use openstint.Base.{
  Bool, List, Option, arith, false, if◌then◌else◌, none, refl, some, subst, true, ℕ, ◌≡◌,
}
use openstint.Float.{Float}
use openstint.Transponder.{Codec, TransponderProtocol, open_stint, rc3, rc4}
use openstint.Transponder.Rc3.{Rc3Result, decode_rc3}
use openstint.Frame.{Frame, bits}
use openstint.Rc4.Message.{Rc4Message, rc4_message}
use openstint.Rc4.Registry.{lookup}
use openstint.Receiver.{Receiver, on_open_stint, on_rc3, on_rc4, on_payload, process_frame}

module _ (F : Float) (fir : List F.R → List F.R → List F.R) (sample_rate : ℕ) (codec : Codec) where
  abbrev Out : Type 0
  Out = Bool × Receiver F fir sample_rate codec

  -- A result of `false` comes with the receiver `r` itself.
  Harmless : Receiver F fir sample_rate codec → Out → Type 0
  Harmless r out = out.0 ≡ false → out.1 ≡ r

  if-Harmless :
      (r : Receiver F fir sample_rate codec) (b : Bool) (x y : Out)
      → Harmless r x
      → Harmless r y
      → Harmless r (if b then x else y)
  if-Harmless r true x y hx hy = hx
  if-Harmless r false x y hx hy = hy

  true-Harmless : (r r' : Receiver F fir sample_rate codec) → Harmless r (true, r')
  unfolding Harmless
  true-Harmless r r' e = ground arith

  same-Harmless : (r : Receiver F fir sample_rate codec) (b : Bool) → Harmless r (b, r)
  unfolding Harmless
  same-Harmless r b e = refl

  on_open_stint-Harmless :
      (f : Frame F) (soft : List ℕ) (r : Receiver F fir sample_rate codec)
      → Harmless r (on_open_stint F fir sample_rate codec f soft r)
  unfolding on_open_stint
  on_open_stint-Harmless f soft r = search (if-Harmless, true-Harmless, same-Harmless)

  on_rc3-Harmless :
      (f : Frame F) (m : Rc3Result) (r : Receiver F fir sample_rate codec)
      → Harmless r (on_rc3 F fir sample_rate codec f m r)
  unfolding on_rc3
  on_rc3-Harmless f m r = search (if-Harmless, true-Harmless, same-Harmless)

  on_rc4-Harmless :
      (f : Frame F) (m : Rc4Message) (o : Option ℕ) (r : Receiver F fir sample_rate codec)
      → Harmless r (on_rc4 F fir sample_rate codec f m o r)
  unfolding on_rc4
  on_rc4-Harmless f m none r = search (if-Harmless, true-Harmless, same-Harmless)
  on_rc4-Harmless f m (some id) r = search (if-Harmless, true-Harmless, same-Harmless)

  -- The same of a result that may be missing.
  abbrev HarmlessIfAny : Receiver F fir sample_rate codec → Option Out → Type 0
  HarmlessIfAny r none = Unit {0}
  HarmlessIfAny r (some out) = Harmless r out

  on_payload-HarmlessIfAny :
      (p : TransponderProtocol) (f : Frame F) (soft : List ℕ) (r : Receiver F fir sample_rate codec)
      → HarmlessIfAny r (on_payload F fir sample_rate codec p f soft r)
  unfolding on_payload
  on_payload-HarmlessIfAny open_stint f soft r = on_open_stint-Harmless f soft r
  on_payload-HarmlessIfAny rc3 f soft r = decoded (decode_rc3 soft)
    where
      decoded :
          (o : Option Rc3Result)
          → HarmlessIfAny r
              (elim o [ none ↦ none | some m ↦ some (on_rc3 F fir sample_rate codec f m r) ])
      decoded none = tt
      decoded (some m) = on_rc3-Harmless f m r
  on_payload-HarmlessIfAny rc4 f soft r = parsed (rc4_message soft)
    where
      parsed :
          (o : Option Rc4Message)
          → HarmlessIfAny r (elim o [
            | none ↦ none
            | some m ↦ some (on_rc4 F fir sample_rate codec f m (lookup m.payload r.registry) r)
          ])
      parsed none = tt
      parsed (some m) = on_rc4-Harmless f m (lookup m.payload r.registry) r

  process_frame-HarmlessIfAny :
      (f : Frame F) (r : Receiver F fir sample_rate codec)
      → HarmlessIfAny r (process_frame F fir sample_rate codec f r)
  unfolding process_frame
  process_frame-HarmlessIfAny f r = outcome (bits F f).0
    where
      outcome :
          (o : Option (List ℕ))
          → HarmlessIfAny r (elim o [
            | none ↦ some (false, r)
            | some soft ↦
                on_payload F fir sample_rate codec
                  (bits F f).1.transponder_protocol
                  (bits F f).1
                  soft
                  r
          ])
      outcome none = same-Harmless r false
      outcome (some soft) =
          on_payload-HarmlessIfAny (bits F f).1.transponder_protocol (bits F f).1 soft r

  -- A frame for which `process_frame` returns false changes nothing in the detector, the
  -- block-list, the registry and the trainer.
  pub process_frame-false :
      (f : Frame F) (r r' : Receiver F fir sample_rate codec)
      → process_frame F fir sample_rate codec f r ≡ some (false, r')
      → r' ≡ r
  unfolding Harmless
  process_frame-false f r r' e = subst (HarmlessIfAny r) e (process_frame-HarmlessIfAny f r) refl

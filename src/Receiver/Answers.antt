-- ===== src/Receiver/Answers.antt =====
-- That `process_frame` of src/commons.cpp always returns, whatever was received, and how its result
-- follows from the payload that `Frame::bits` found.
use openstint.Base.{
  Bool, Bool-cases, List, Option, [], ap, arith, bit_xor, false, inl, inr, length, ltb, none, refl,
  some, subst, suc, sym, zero, ℕ, ◌-◌, ◌^◌, ◌∙◌, ◌∷◌, ◌≡◌, ◌≤◌,
}
use openstint.Float.{Float}
use openstint.Transponder.{Codec, TransponderProtocol, open_stint, rc3, rc4, transponder_props}
use openstint.Transponder.Rc3.Laws.{decode_rc3-answers}
use openstint.Transponder.Rc3.{hard}
use openstint.Frame.{Frame, bits, bits_found, bits_inverted, concat_bits32, preamble_pos}
use openstint.Frame.Payload.{Enough, bits-Enough}
use openstint.Rc4.Message.{Rc4Message, rc4_message, decode_bits, message_of_bits}
use openstint.Rc4.Registry.{lookup}
use openstint.Receiver.{Receiver, on_rc3, on_rc4, on_payload, process_frame}

decode_bits-answers :
    (n prev : ℕ) (soft : List ℕ)
    → n ≤ length soft
    → (bs : List ℕ) × (decode_bits n prev soft ≡ some bs)
unfolding decode_bits
decode_bits-answers zero prev soft h = ([], refl)
decode_bits-answers (suc n) prev [] h = absurd (omega arith)
decode_bits-answers (suc n) prev (s ∷ soft) h =
    let (bs, e) = decode_bits-answers n (hard s) soft (omega arith) in
    (bit_xor (hard s) prev ∷ bs, rw e refl)

rc4_message-answers :
    (soft : List ℕ) → 100 ≤ length soft → (m : Rc4Message) × (rc4_message soft ≡ some m)
unfolding rc4_message message_of_bits
rc4_message-answers soft h =
    let (bs, e) = decode_bits-answers 100 1 soft h in (message_of_bits bs, rw (e, rc4_message) refl)

module _ (F : Float) where
  bits_found-protocol :
      (o : Option ℕ) (sof : ℕ) (f : Frame F)
      → (bits_found F o sof f).1.transponder_protocol ≡ f.transponder_protocol
  unfolding bits_found bits_inverted
  bits_found-protocol none sof f =
      elim (preamble_pos (2 ^ 32 - 1 - sof) (transponder_props f.transponder_protocol).preamble)
        as (λ o. (bits_inverted F o f).1.transponder_protocol ≡ f.transponder_protocol) [
          | none ↦ refl
          | some pos ↦ refl
        ]
  bits_found-protocol (some pos) sof f = refl

  pub bits-protocol : (f : Frame F) → (bits F f).1.transponder_protocol ≡ f.transponder_protocol
  unfolding bits
  bits-protocol f = elim (Bool-cases (ltb (length f.softbits) 32)) [
    | inl short ↦ rw short refl
    | inr long ↦ rw long (bits_found-protocol _ (concat_bits32 f.softbits) f)
  ]

module _ (F : Float) (fir : List F.R → List F.R → List F.R) (sample_rate : ℕ) (codec : Codec) where
  on_payload-answers :
      (p : TransponderProtocol) (f : Frame F) (soft : List ℕ) (r : Receiver F fir sample_rate codec)
      → (transponder_props p).payload_size ≤ length soft
      → (out : Bool × Receiver F fir sample_rate codec) × (on_payload F fir sample_rate codec p f
            soft r
          ≡ some out)
  unfolding on_payload
  on_payload-answers open_stint f soft r h = (_, refl)
  on_payload-answers rc3 f soft r h =
      let (m, e) = decode_rc3-answers soft h in
      (on_rc3 F fir sample_rate codec f m r, rw (e, on_payload) refl)
  on_payload-answers rc4 f soft r h =
      let (m, e) = rc4_message-answers soft h in
      (on_rc4 F fir sample_rate codec f m (lookup m.payload r.registry) r, rw (e, on_payload) refl)

  -- A frame with the payload size of its protocol is always processed to a result: no decoder
  -- reads past the soft bits, however few were received.
  pub process_frame-answers :
      (f : Frame F) (r : Receiver F fir sample_rate codec)
      → f.payload_size ≡ (transponder_props f.transponder_protocol).payload_size
      → (out : Bool × Receiver F fir sample_rate codec) × (process_frame F fir sample_rate codec f r
          ≡ some out)
  unfolding process_frame
  process_frame-answers f r size =
      answer (bits F f).0 (bits F f).1 (bits-Enough F f) (bits-protocol F f)
    where
      answer :
          (o : Option (List ℕ)) (f' : Frame F)
          → Enough F f.payload_size o
          → f'.transponder_protocol ≡ f.transponder_protocol
          → (out : Bool × Receiver F fir sample_rate codec) × (elim o [
            | none ↦ some (false, r)
            | some soft ↦ on_payload F fir sample_rate codec f'.transponder_protocol f' soft r
          ]
              ≡ some out)
      answer none f' enough same = (_, refl)
      answer (some soft) f' enough same = on_payload-answers f'.transponder_protocol f' soft r (
          subst (λ p. (transponder_props p).payload_size ≤ length soft) (sym same)
            (subst (λ n. n ≤ length soft) size enough))

  abbrev Out : Type 0
  Out = Bool × Receiver F fir sample_rate codec

  pub process_frame_found :
      (f f' : Frame F) (soft : List ℕ) (r : Receiver F fir sample_rate codec)
      → bits F f ≡ (some soft, f')
      → process_frame F fir sample_rate codec f r
        ≡ on_payload F fir sample_rate codec f.transponder_protocol f' soft r
  unfolding process_frame
  process_frame_found f f' soft r found =
      let same_protocol : f'.transponder_protocol ≡ f.transponder_protocol =
        ap (λ b. b.1.transponder_protocol) (sym found) ∙ bits-protocol F f in
      ap
        (λ b. elim b.0 as (λ x. Option Out) [
          | none ↦ some (false, r)
          | some s ↦ on_payload F fir sample_rate codec b.1.transponder_protocol b.1 s r
        ])
        found
      ∙ ap (λ protocol. on_payload F fir sample_rate codec protocol f' soft r) same_protocol

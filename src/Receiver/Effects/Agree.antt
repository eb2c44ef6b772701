-- ===== src/Receiver/Effects/Agree.antt =====
-- That `process_frame` of src/commons.cpp is its plan with the calls made in a row.
use openstint.Base.{Bool, List, Option, [], ap, arith, false, none, refl, some, sym, ℕ, ◌>>=◌, ◌≡◌}
use openstint.Float.{Float}
use openstint.Transponder.{Codec, TransponderProtocol, open_stint, rc3, rc4}
use openstint.Transponder.Rc3.{Rc3Result, decode_rc3}
use openstint.Frame.{Frame, bits}
use openstint.Rc4.Message.{Rc4Message, rc4_message}
use openstint.Rc4.Registry.{lookup}
use openstint.Receiver.{Receiver, on_open_stint, on_rc3, on_rc4, on_payload, process_frame}
use openstint.Receiver.Effects.{
  Plan, plan_open_stint, plan_rc3, plan_rc4, plan_payload, plan, perform, perform_all, carry_out,
}

module _ (F : Float) (fir : List F.R → List F.R → List F.R) (sample_rate : ℕ) (codec : Codec) where
  abbrev Rx : Type 0
  Rx = Receiver F fir sample_rate codec

  carry_out-plan_open_stint :
      (f : Frame F) (soft : List ℕ) (r : Rx)
      → carry_out F fir sample_rate codec f r (plan_open_stint codec soft r.blacklist)
        ≡ on_open_stint F fir sample_rate codec f soft r
  unfolding carry_out plan_open_stint on_open_stint perform_all perform
  carry_out-plan_open_stint f soft r = ground arith

  carry_out-plan_rc3 :
      (f : Frame F) (m : Rc3Result) (r : Rx)
      → carry_out F fir sample_rate codec f r (plan_rc3 f.timestamp m r.blacklist)
        ≡ on_rc3 F fir sample_rate codec f m r
  unfolding carry_out plan_rc3 on_rc3 perform_all perform
  carry_out-plan_rc3 f m r = ground arith

  carry_out-plan_rc4 :
      (f : Frame F) (m : Rc4Message) (found : Option ℕ) (r : Rx)
      → carry_out F fir sample_rate codec f r (plan_rc4 m found r.blacklist)
        ≡ on_rc4 F fir sample_rate codec f m found r
  unfolding carry_out plan_rc4 on_rc4 perform_all perform
  carry_out-plan_rc4 f m found r = ground arith

  abbrev then_carried : Frame F → Rx → Option Plan → Option (Bool × Rx)
  then_carried f r o = o >>= λ p. some (carry_out F fir sample_rate codec f r p)

  on_payload-plan_payload :
      (protocol : TransponderProtocol) (f : Frame F) (soft : List ℕ) (r : Rx)
      → on_payload F fir sample_rate codec protocol f soft r
        ≡ then_carried f r (plan_payload codec protocol f.timestamp soft r.blacklist r.registry)
  unfolding on_payload plan_payload
  on_payload-plan_payload open_stint f soft r = ap some (sym (carry_out-plan_open_stint f soft r))
  on_payload-plan_payload rc3 f soft r =
      elim (decode_rc3 soft)
        as (λ o.
          (elim o as (λ x. Option (Bool × Rx)) [
            | none ↦ none
            | some m ↦ some (on_rc3 F fir sample_rate codec f m r)
          ])
          ≡ then_carried f r (o >>= λ m. some (plan_rc3 f.timestamp m r.blacklist))) [
            | none ↦ refl
            | some m ↦ ap some (sym (carry_out-plan_rc3 f m r))
          ]
  on_payload-plan_payload rc4 f soft r =
      elim (rc4_message soft)
        as (λ o.
          (elim o as (λ x. Option (Bool × Rx)) [
            | none ↦ none
            | some m ↦ some (on_rc4 F fir sample_rate codec f m (lookup m.payload r.registry) r)
          ])
          ≡ then_carried f r
              (o >>= λ m. some (plan_rc4 m (lookup m.payload r.registry) r.blacklist))) [
                | none ↦ refl
                | some m ↦ ap some (sym (carry_out-plan_rc4 f m (lookup m.payload r.registry) r))
              ]

  nothing_found :
      (f : Frame F) (r : Rx)
      → ◌≡◌ {A = Option (Bool × Rx)} (some (false, r)) (
          then_carried
            (bits F f).1
            r
            (some (record { processed = false; blacklist = r.blacklist; effects = [] })))
  unfolding carry_out perform_all
  nothing_found f r = refl

  -- Processing a frame is its plan, made with the block-list and the registry as they are, with all
  -- its calls in a row: whatever the protocol is, also where no payload is found or a read fails.
  pub process_frame-plan :
      (f : Frame F) (r : Rx)
      → process_frame F fir sample_rate codec f r
        ≡ then_carried (bits F f).1 r (plan F fir sample_rate codec f r.blacklist r.registry)
  unfolding process_frame plan
  process_frame-plan f r =
      elim (bits F f).0
        as (λ found.
          (elim found as (λ x. Option (Bool × Rx)) [
            | none ↦ some (false, r)
            | some soft ↦
                on_payload F fir sample_rate codec (bits F f).1.transponder_protocol (bits F f).1
                  soft r
          ])
          ≡ then_carried (bits F f).1 r (elim found as (λ x. Option Plan) [
            | none ↦ some (record { processed = false; blacklist = r.blacklist; effects = [] })
            | some soft ↦
                plan_payload codec (bits F f).1.transponder_protocol (bits F f).1.timestamp soft
                  r.blacklist r.registry
          ])) [
            | none ↦ nothing_found f r
            | some soft ↦
                on_payload-plan_payload (bits F f).1.transponder_protocol (bits F f).1 soft r
          ]

-- ===== src/Receiver/Effects.antt =====
-- `process_frame` of src/commons.cpp cut at the locks that it takes: the frame is decoded, the
-- block-list heard and the registry asked first; what goes to the passing detector and to the trainer
-- is a list of calls, each of which locks by itself.
pub mod Agree
use openstint.Base.{
  Bool, List, Option, [], bit_and, false, if◌then◌else◌, leb, ltb, negb, none, some, true, ℕ, ◌&&◌,
  ◌==◌, ◌>>=◌, ◌∷◌,
}
use openstint.Float.{Float}
use openstint.Transponder.{Codec, TransponderProtocol, open_stint, rc3, rc4, decode_openstint}
use openstint.Transponder.Rc3.{Rc3Result, decode_rc3}
use openstint.Transponder.Blacklist.{AmbRcBlacklist, process, check_banned}
use openstint.Frame.{Frame, bits}
use openstint.Passing.Detector
use openstint.Rc4.Message.{Rc4Message, rc4_message}
use openstint.Rc4.Registry.{Registry, lookup}
use openstint.Receiver.{Receiver, detect, train}

-- `passing_detector.append`, `passing_detector.timesync` and `rc4_trainer.append`.
pub data Effect : Type 0 where
  detects : ℕ → Effect
  syncs : ℕ → Effect
  trains : ℕ → ℕ → Effect

-- The result of `process_frame`, the block-list behind it, and the calls that are to be made.
pub record Plan : Type 0 where
  pub processed : Bool
  pub blacklist : AmbRcBlacklist
  pub effects : List Effect

unfoldable pub plan_open_stint : Codec → List ℕ → AmbRcBlacklist → Plan
plan_open_stint codec softbits b =
    let decoded = decode_openstint codec softbits in
    let id = decoded.0 in
    if negb decoded.1
    then record { processed = false; blacklist = b; effects = [] }
    else if ltb id 10000000
    then record { processed = true; blacklist = b; effects = detects id ∷ [] }
    else if bit_and id 0x00A00000 == 0x00A00000
    then record { processed = true; blacklist = b; effects = syncs (bit_and id 0x000FFFFF) ∷ [] }
    else record { processed = true; blacklist = b; effects = [] }

unfoldable pub plan_rc3 : ℕ → Rc3Result → AmbRcBlacklist → Plan
plan_rc3 timestamp m b =
    let low = bit_and m.status_code 0x07 == 0 in
    let b' = process timestamp m.status_code m.transponder_id b in
    let detected : Plan = record {
      processed = true;
      blacklist = b';
      effects = detects m.transponder_id ∷ [];
    } in
    if negb m.ok
    then record { processed = false; blacklist = b; effects = [] }
    else if leb 10000000 m.transponder_id
    then record { processed = low; blacklist = b; effects = [] }
    else if (m.status_code == 0xff) && negb (check_banned m.transponder_id b')
    then detected
    else if low
    then detected
    else record { processed = true; blacklist = b'; effects = [] }

unfoldable pub plan_rc4 : Rc4Message → Option ℕ → AmbRcBlacklist → Plan
plan_rc4 m found b =
    if negb m.is_valid
    then record { processed = false; blacklist = b; effects = [] }
    else elim found [
      | none ↦ record { processed = true; blacklist = b; effects = trains 0 m.payload ∷ [] }
      | some id ↦ record {
        processed = true;
        blacklist = b;
        effects = detects id ∷ trains id m.payload ∷ [];
      }
    ]

unfoldable pub plan_payload :
    Codec → TransponderProtocol → ℕ → List ℕ → AmbRcBlacklist → Registry → Option Plan
plan_payload codec open_stint timestamp softbits b known = some (plan_open_stint codec softbits b)
plan_payload codec rc3 timestamp softbits b known = do
  m ← decode_rc3 softbits
  some (plan_rc3 timestamp m b)
plan_payload codec rc4 timestamp softbits b known = do
  m ← rc4_message softbits
  some (plan_rc4 m (lookup m.payload known) b)

module _ (F : Float) (fir : List F.R → List F.R → List F.R) (sample_rate : ℕ) (codec : Codec) where
  -- Over the frame as `bits` left it.
  unfoldable pub plan : Frame F → AmbRcBlacklist → Registry → Option Plan
  plan f b known =
      let (found, f') = bits F f in
      elim found [
        | none ↦ some (record { processed = false; blacklist = b; effects = [] })
        | some softbits ↦ plan_payload codec f'.transponder_protocol f'.timestamp softbits b known
      ]

  unfoldable pub perform :
      Frame F → Effect → Receiver F fir sample_rate codec → Receiver F fir sample_rate codec
  perform f (detects id) r = detect F fir sample_rate codec f id r
  perform f (syncs transponder_timestamp) r = record r {
    detector =
        openstint.Passing.Detector.timesync F fir sample_rate f.timestamp transponder_timestamp
          r.detector;
  }
  perform f (trains id payload) r = train F fir sample_rate codec f id payload r

  unfoldable pub perform_all :
      Frame F → List Effect → Receiver F fir sample_rate codec → Receiver F fir sample_rate codec
  perform_all f [] r = r
  perform_all f (e ∷ es) r = perform_all f es (perform f e r)

  -- The plan and all its calls in a row.
  unfoldable pub carry_out :
      Frame F → Receiver F fir sample_rate codec → Plan → Bool × Receiver F fir sample_rate codec
  carry_out f r p = (p.processed, perform_all f p.effects (record r { blacklist = p.blacklist }))

-- ===== src/Receiver.antt =====
-- `process_frame` and `reporting_timestamp` of src/commons.cpp: how a complete frame reaches the
-- block-list, the RC4 registry, the trainer and the passing detector, which are one
-- state here.
pub mod Answers
pub mod Outcome
pub mod Learned
pub mod Learning
pub mod Safe
pub mod Frames
pub mod Report
pub mod Decoder
pub mod Effects
pub mod Threads
use openstint.Base.{
  Bool, List, Option, bit_and, false, if◌then◌else◌, leb, ltb, negb, none, some, true, ℕ, ◌%◌, ◌&&◌,
  ◌+◌, ◌-◌, ◌/◌, ◌==◌, ◌^◌,
}
use openstint.Float.{Float}
use openstint.Transponder.{Codec, TransponderProtocol, open_stint, rc3, rc4, decode_openstint}
use openstint.Transponder.Rc3.{Rc3Result, decode_rc3}
use openstint.Transponder.Blacklist.{AmbRcBlacklist, new_blacklist, process, check_banned}
use openstint.Frame.{Frame, bits, rssi}
use openstint.Passing.System.{TransponderKey, transponder_system}
use openstint.Passing.Point.{Detection}
use openstint.Passing.Detector.{PassingDetector, new_detector}
use openstint.Passing.Detector
use openstint.Rc4.Message.{Rc4Message, rc4_message}
use openstint.Rc4.Registry.{Registry, new_registry, lookup}
use openstint.Rc4.Trainer.{Trainer, Entry, new_trainer}
use openstint.Rc4.Trainer

-- `reporting_timestamp` under `mode_sysclk`.
unfoldable pub reporting_timestamp : Bool → ℕ → ℕ → ℕ → ℕ
reporting_timestamp mode_sysclk timestamp_us steady_now sysclk_now =
    if mode_sysclk
    then (sysclk_now + 2 ^ 64 - (steady_now + 2 ^ 64 - timestamp_us) % 2 ^ 64) % 2 ^ 64 / 1000
    else timestamp_us / 1000

module _ (F : Float) (fir : List F.R → List F.R → List F.R) (sample_rate : ℕ) (codec : Codec) where
  pub record Receiver : Type 0 where
    pub detector : PassingDetector F fir sample_rate
    pub blacklist : AmbRcBlacklist
    pub registry : Registry
    pub trainer : Trainer F

  -- The static objects as they are constructed.
  abbrev pub new_receiver : Receiver
  new_receiver = record {
    detector = new_detector F fir sample_rate;
    blacklist = new_blacklist;
    registry = new_registry;
    trainer = new_trainer F;
  }

  -- `passing_detector.append(frame, transponder_id)`
  unfoldable pub detect : Frame F → ℕ → Receiver → Receiver
  detect f id r = record r {
    detector =
        openstint.Passing.Detector.append F fir sample_rate
          (record { system = transponder_system f.transponder_protocol; id = id })
          (record { timestamp = f.timestamp; timecode = f.timecode; rssi = rssi F f }) r.detector;
  }

  -- `rc4_trainer.append(frame->timestamp, frame->rssi(), id, payload)`
  unfoldable pub train : Frame F → ℕ → ℕ → Receiver → Receiver
  train f id payload r = record r {
    trainer =
        openstint.Rc4.Trainer.append F
          (record {
            timestamp = f.timestamp;
            rc4_payload = payload;
            rssi = rssi F f;
            transponder_id = id;
          })
          r.trainer;
  }

  -- The case OpenStint.
  unfoldable pub on_open_stint : Frame F → List ℕ → Receiver → Bool × Receiver
  unfolding detect
  on_open_stint f softbits r =
      let decoded = decode_openstint codec softbits in
      let id = decoded.0 in
      if negb decoded.1
      then (false, r)
      else if ltb id 10000000
      then (true, detect f id r)
      else if bit_and id 0x00A00000 == 0x00A00000
      then (
        true,
        record r {
          detector =
              openstint.Passing.Detector.timesync F fir sample_rate f.timestamp
                (bit_and id 0x000FFFFF) r.detector;
        },
      )
      else (true, r)

  -- The case RC3, over what `decode_rc3` gave.
  unfoldable pub on_rc3 : Frame F → Rc3Result → Receiver → Bool × Receiver
  unfolding detect
  on_rc3 f m r =
      let low = bit_and m.status_code 0x07 == 0 in
      let r' = record r {
        blacklist = process f.timestamp m.status_code m.transponder_id r.blacklist;
      } in
      if negb m.ok
      then (false, r)
      else if leb 10000000 m.transponder_id
      then (low, r)
      else if (m.status_code == 0xff) && negb (check_banned m.transponder_id r'.blacklist)
      then (true, detect f m.transponder_id r')
      else if low
      then (true, detect f m.transponder_id r')
      else (true, r')

  -- The case RC4, over the result of the constructor `RC4Message` and of the lookup.
  unfoldable pub on_rc4 : Frame F → Rc4Message → Option ℕ → Receiver → Bool × Receiver
  unfolding detect train
  on_rc4 f m found r = if negb m.is_valid then (false, r) else elim found [
    | none ↦ (true, train f 0 m.payload r)
    | some id ↦ (true, train f id m.payload (detect f id r))
  ]

  -- The switch over the protocol; `none` is a read past the end of the soft bits.
  unfoldable pub on_payload :
      TransponderProtocol → Frame F → List ℕ → Receiver → Option (Bool × Receiver)
  on_payload open_stint f softbits r = some (on_open_stint f softbits r)
  on_payload rc3 f softbits r = elim (decode_rc3 softbits) [
    | none ↦ none
    | some m ↦ some (on_rc3 f m r)
  ]
  on_payload rc4 f softbits r = elim (rc4_message softbits) [
    | none ↦ none
    | some m ↦ some (on_rc4 f m (lookup m.payload r.registry) r)
  ]

  -- `process_frame`, over the frame as `bits` left it.
  unfoldable pub process_frame : Frame F → Receiver → Option (Bool × Receiver)
  process_frame f r =
      let (found, f') = bits F f in
      elim found [
        | none ↦ some (false, r)
        | some softbits ↦ on_payload f'.transponder_protocol f' softbits r
      ]

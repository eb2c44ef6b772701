-- ===== src/Tests/Receiving.antt =====
-- Tests of `process_frame`.
use openstint.Base.{
  List, [], arith, assign, contains, find, popcount, refl, some, true, ℕ, ◌++◌, ◌∷◌, ◌≡◌, ℕ_key,
}
use openstint.Base.Int.{negsuc}
use openstint.Transponder.{rc3, rc4}
use openstint.Transponder.Blacklist.{new_blacklist}
use openstint.Frame.{
  Frame, new_frame, bits, bits_found, bits_inverted, payload_at, preamble_pos, search_preamble,
  concat_bits32, concat_bits,
}
use openstint.Passing.Detector.{new_detector}
use openstint.Rc4.Message.Roundtrip.{encode, modulate, spread, digit, rc4_message-encode}
use openstint.Rc4.Registry.{new_registry, store, lookup, reserve, assign_all}
use openstint.Passing.Detector.{passings_between, between_of}
use openstint.Rc4.Trainer.{
  Entry, finalizing, new_trainer, registry_payloads, preferred_transponder_id, first_known, tally,
  repeated, buffer_timerange,
}
use openstint.Receiver.Learning.{learn, learn_between, choose_id, lookup-learn}
use openstint.Receiver.{Receiver, process_frame, detect, train}
use openstint.Receiver.Outcome.{process_frame-false}
use openstint.Receiver.Learned.{process_frame_stored}
use openstint.Tests.{whole, keep, rate, echo, soft_word, frame_of}

abbrev idle_receiver : Receiver whole keep rate echo
idle_receiver = record {
  detector = new_detector whole keep rate;
  blacklist = new_blacklist;
  registry = new_registry;
  trainer = new_trainer whole;
}

-- 40 soft bits are too few for a payload.
abbrev torn : Frame whole
torn = frame_of rc3 (soft_word 40 0x51e4aaaaaa)

process_frame-false_example : idle_receiver ≡ idle_receiver
unfolding process_frame bits bits_found bits_inverted payload_at preamble_pos search_preamble
    concat_bits32 concat_bits popcount new_frame
process_frame-false_example =
    process_frame-false whole keep rate echo torn idle_receiver idle_receiver refl

-- The preamble 0x80cd and a payload behind it.
abbrev sent : List ℕ
sent = modulate 1 (encode 0x0123456789abcdef)

abbrev parked : Frame whole
parked = frame_of rc4 (soft_word 16 0x80cd ++ sent)

bits-parked : bits whole parked ≡ (some sent, parked)
unfolding bits bits_found payload_at preamble_pos search_preamble concat_bits32 concat_bits popcount
    new_frame modulate encode spread digit
bits-parked = refl

process_frame_stored_example :
    process_frame whole keep rate echo parked
      (record idle_receiver { registry = (store 0 (5 ∷ 0x0123456789abcdef ∷ []) new_registry).1 })
    ≡ some (
      true,
      train whole keep rate echo parked 1000 0x0123456789abcdef (
          detect whole keep rate echo parked 1000 (record idle_receiver {
            registry = (store 0 (5 ∷ 0x0123456789abcdef ∷ []) new_registry).1;
          })),
    )
unfolding new_frame contains store
process_frame_stored_example =
    process_frame_stored whole keep rate echo parked parked idle_receiver 0 0x0123456789abcdef
      (5 ∷ 0x0123456789abcdef ∷ []) sent refl bits-parked
      (rc4_message-encode 0x0123456789abcdef (omega arith)) refl

-- A trainer with two frames of one payload and one of another.
abbrev entry : ℕ → ℕ → Entry whole
entry t payload = record {
  timestamp = t;
  rc4_payload = payload;
  rssi = negsuc 9;
  transponder_id = 0;
}

abbrev pub trained : Receiver whole keep rate echo
trained = record idle_receiver {
  trainer = record { state = finalizing; buffer = entry 10 7 ∷ entry 20 9 ∷ entry 30 7 ∷ [] };
}

lookup-learn_example :
    (out : ℕ × ℕ × Receiver whole keep rate echo) × (learn whole keep rate echo trained ≡ some out)
    × (lookup 7 out.2.registry ≡ some out.0)
lookup-learn_example = lookup-learn whole keep rate echo 7 trained (omega arith)

learned_id :
    learn whole keep rate echo trained
    ≡ some (
      1000,
      1,
      record trained { registry = record { registry = (7, 1000) ∷ []; next_transponder = 1001 } },
    )
unfolding learn learn_between store reserve assign_all choose_id registry_payloads
    preferred_transponder_id first_known tally repeated buffer_timerange passings_between between_of
    assign find
learned_id = refl

-- ===== src/Tests/Decoding.antt =====
-- Tests of the RC3 and RC4 decoders and of the block-list.
use openstint.Base.{
  Bool, List, [], arith, false, map, ones, popcount, refl, some, true, ℕ, ◌*◌, ◌∷◌, ◌≡◌,
}
use openstint.Transponder.Rc3.{decode_rc3}
use openstint.Transponder.Rc3.Code.{Noise, clean, first, second, transmit}
use openstint.Transponder.Rc3.Message.{Chunk}
use openstint.Transponder.Rc3.Laws.{decode_rc3-transmit}
use openstint.Transponder.Blacklist.{check_banned, is_recent}
use openstint.Transponder.Blacklist.History.{Message, state_after, check_banned-state_after}
use openstint.Rc4.Message.{rc4_message}
use openstint.Rc4.Message.Roundtrip.{encode, modulate, rc4_message-encode}

abbrev chunk : Bool → Bool → Bool → Bool → Chunk
chunk x2 x1 x0 status = record { x2 = x2; x1 = x1; x0 = x0; status = status }

-- The id 3456789 with the status code 40.
abbrev chunks : List Chunk
chunks =
    chunk false false true false
    ∷ chunk true false true false
    ∷ chunk false false true true
    ∷ chunk false true true false
    ∷ chunk true true true true
    ∷ chunk true false false false
    ∷ chunk false true false false
    ∷ chunk true false true false
    ∷ []

-- Its bits on air, three of them hit.
abbrev sent : List (Bool × Noise)
sent =
    (true, clean)
    ∷ (false, clean)
    ∷ (true, clean)
    ∷ (false, first)
    ∷ (false, clean)
    ∷ (true, clean)
    ∷ (false, clean)
    ∷ (false, clean)
    ∷ (false, clean)
    ∷ (false, clean)
    ∷ (true, clean)
    ∷ (false, clean)
    ∷ (true, clean)
    ∷ (true, clean)
    ∷ (true, clean)
    ∷ (true, clean)
    ∷ (true, clean)
    ∷ (true, second)
    ∷ (false, clean)
    ∷ (false, clean)
    ∷ (true, clean)
    ∷ (false, clean)
    ∷ (false, clean)
    ∷ (true, clean)
    ∷ (true, clean)
    ∷ (false, clean)
    ∷ (true, clean)
    ∷ (false, clean)
    ∷ (true, clean)
    ∷ (false, clean)
    ∷ (false, first)
    ∷ (false, clean)
    ∷ (false, clean)
    ∷ (false, clean)
    ∷ (false, clean)
    ∷ (false, clean)
    ∷ (false, clean)
    ∷ (false, clean)
    ∷ (false, clean)
    ∷ (false, clean)
    ∷ []

abbrev sent_soft : List ℕ
sent_soft = map (λ s. s * 200) (transmit 0 0 sent)

decode_rc3-transmit_example :
    decode_rc3 sent_soft ≡ some (record { transponder_id = 3456789; status_code = 40; ok = true })
unfolding transmit popcount ones
decode_rc3-transmit_example = decode_rc3-transmit sent chunks sent_soft refl refl refl tt refl

-- A validation message, then a message of a transponder with the same leading bits.
abbrev heard : List Message
heard =
    record { timestamp = 1100000; status_code = 0xff; transponder_id = 0x123456 }
    ∷ record { timestamp = 1000000; status_code = 0xf9; transponder_id = 0x12ffff }
    ∷ []

check_banned-state_after_example : check_banned 0x123456 (state_after heard) ≡ true
unfolding is_recent
check_banned-state_after_example = check_banned-state_after 0x123456 heard

rc4_message-encode_example :
    rc4_message (modulate 1 (encode 0x0123456789abcdef))
    ≡ some (record { payload = 0x0123456789abcdef; is_valid = true })
rc4_message-encode_example = rc4_message-encode 0x0123456789abcdef (omega arith)

-- ===== src/Transponder/Rc3/Laws.antt =====
-- `decode_rc3` as a whole: it reads back what the code of the comments sends, and it answers on
-- every array of 80 soft bits.
use native.Mathlib.Nat.{pow-suc}
use openstint.Base.{
  Bool, List, [], ap, arith, bit_and, bit_and_mask, false, length, map, refl, some, subst, suc, sym,
  true, zero, ℕ, ◌*◌, ◌/◌, ◌<◌, ◌^◌, ◌∙◌, ◌∷◌, ◌≡◌, ◌≤◌,
}
use openstint.Transponder.Rc3.{
  hard, Reader, read_pair, read_pairs, unscramble, finish, Rc3Result, decode_rc3,
}
use openstint.Transponder.Rc3.Code.{Noise, transmit, word, Isolated}
use openstint.Transponder.Rc3.Rounds.{bit-lt}
use openstint.Transponder.Rc3.Correct.{Room}
use openstint.Transponder.Rc3.Decode.{reads-word}
use openstint.Transponder.Rc3.Message.{
  Chunk, id_of, status_of, message_of, Fits, rounds, unscramble-chunks,
}

message_of-lt : (cs : List Chunk) → message_of cs < 16 ^ length cs
message_of-lt [] = omega arith
message_of-lt (c ∷ cs) = omega (
  arith,
  message_of-lt cs,
  pow-suc 16 (length cs),
  bit-lt c.status,
  bit-lt c.x2,
  bit-lt c.x1,
  bit-lt c.x0,
)

rounds-length : (cs : List Chunk) → rounds cs ≡ 4 * length cs
rounds-length [] = omega arith
rounds-length (c ∷ cs) = omega (arith, rounds-length cs)

-- The register of a message with a zero byte behind it.
finish-message :
    (cs : List Chunk) (shreg : ℕ)
    → length cs ≡ 8
    → shreg ≡ message_of cs * 256 * 2
    → finish shreg ≡ record { transponder_id = id_of 0 cs; status_code = status_of 0 cs; ok = true }
unfolding finish
finish-message cs shreg h e =
    let small : message_of cs < 16 ^ 8 = subst (λ k. message_of cs < 16 ^ k) h (message_of-lt cs) in
    let half : shreg / 2 ≡ message_of cs * 256 = omega arith in
    let trail : bit_and (message_of cs * 256) 0xff ≡ 0 =
      omega (arith, bit_and_mask 8 (message_of cs * 256)) in
    let body : bit_and (message_of cs * 256 / 2 ^ 8) 0xffffffff ≡ message_of cs =
      omega (arith, bit_and_mask 32 (message_of cs * 256 / 2 ^ 8)) in
    let count : rounds cs ≡ 32 = omega (arith, rounds-length cs) in
    let fits : Fits (length cs) 0 0 = subst (λ k. Fits k 0 0) (sym h) (omega arith) in
    let out : unscramble 32 0 (message_of cs) 0 0 ≡ (id_of 0 cs, status_of 0 cs) =
      subst (λ k. unscramble k 0 (message_of cs) 0 0 ≡ (id_of 0 cs, status_of 0 cs)) count
        (unscramble-chunks cs 0 (message_of cs) 0 0 (omega arith) (omega arith) fits) in
    rw (half, trail, body, out)

-- A frame of 40 bits that ends in a zero byte, encoded by the two polynomials and sent
-- differentially, is decoded to its transponder id and status code and passes the check, at every
-- soft level, also where the channel flips one bit of a pair, as long as no two pairs in a row are
-- hit.
pub decode_rc3-transmit :
    (bits : List (Bool × Noise)) (cs : List Chunk) (soft : List ℕ)
    → length bits ≡ 40
    → length cs ≡ 8
    → word 0 bits ≡ message_of cs * 256
    → Isolated bits
    → map hard soft ≡ transmit 0 0 bits
    → decode_rc3 soft
      ≡ some (record { transponder_id = id_of 0 cs; status_code = status_of 0 cs; ok = true })
unfolding decode_rc3
decode_rc3-transmit bits cs soft hb hc e iso h =
    let room : Room (length bits) 0 = subst (λ k. Room k 0) (sym hb) (omega arith) in
    let (r, er, es) = reads-word bits 0 false soft 0 (omega arith) h iso room in
    let reads : read_pairs 40 soft (record { shreg = 0; last_ok = true; prev_sym = 0 }) ≡ some r =
      subst (λ k. read_pairs k soft (record { shreg = 0; last_ok = true; prev_sym = 0 }) ≡ some r)
        hb er in
    rw (reads, decode_rc3) (ap some (finish-message cs r.shreg hc (es ∙ ap (λ k. k * 2) e)))

read_pairs-answers :
    (n : ℕ) (soft : List ℕ) (r : Reader)
    → 2 * n ≤ length soft
    → (r' : Reader) × (read_pairs n soft r ≡ some r')
unfolding read_pairs
read_pairs-answers zero soft r h = (r, refl)
read_pairs-answers (suc n) [] r h = absurd (omega arith)
read_pairs-answers (suc n) (s0 ∷ []) r h = absurd (omega arith)
read_pairs-answers (suc n) (s0 ∷ s1 ∷ soft) r h =
    read_pairs-answers n soft (read_pair s0 s1 r) (omega arith)

-- Over at least 80 soft bits the decoder reads only bits that are there, whatever they are.
pub decode_rc3-answers :
    (soft : List ℕ) → 80 ≤ length soft → (d : Rc3Result) × (decode_rc3 soft ≡ some d)
unfolding decode_rc3
decode_rc3-answers soft h =
    let start : Reader = record { shreg = 0; last_ok = true; prev_sym = 0 } in
    let (r, e) = read_pairs-answers 40 soft start (omega arith) in
    (finish r.shreg, rw (e, decode_rc3))

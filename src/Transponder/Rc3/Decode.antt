-- ===== src/Transponder/Rc3/Decode.antt =====
-- The whole loop of `decode_rc3` over a message with isolated hits.
use openstint.Base.{
  Bool, List, [], ap, arith, false, length, map, negb, refl, subst, suc, sym, true, ℕ, ◌%◌, ◌*◌,
  ◌+◌, ◌<◌, ◌∙◌, ◌∷◌, ◌≡◌,
}
use openstint.Transponder.Rc3.{hard, read_pairs}
use openstint.Transponder.Rc3.Code.{
  bit, out0, out1, Noise, clean, first, second, flip0, flip1, transmit, word, Isolated,
}
use openstint.Transponder.Rc3.Rounds.{bit-lt}
use openstint.Transponder.Rc3.Correct.{
  Room, Room-mono, Room-lt, map-hard_pair, reader, read_clean, read_fill, read_hit, Reads,
  Reads-step, hard-lt,
}

-- A pair of symbols at the front of what was received.
record Pair (soft : List ℕ) (prev next f0 f1 : ℕ) (bits : List (Bool × Noise)) : Type 0 where
  s0 : ℕ
  s1 : ℕ
  rest : List ℕ
  split : soft ≡ s0 ∷ s1 ∷ rest
  first0 : hard s0 ≡ (prev + out0 next + f0) % 2
  second1 : hard s1 ≡ (hard s0 + out1 next + f1) % 2
  others : map hard rest ≡ transmit (hard s1) next bits

Pair-of :
    (soft : List ℕ) (prev shreg : ℕ) (b : Bool) (e : Noise) (bits : List (Bool × Noise))
    → map hard soft ≡ transmit prev shreg ((b, e) ∷ bits)
    → Pair soft prev (shreg * 2 + bit b) (flip0 e) (flip1 e) bits
unfolding transmit
Pair-of soft prev shreg b e bits h =
    let (s0, s1, rest, es, h0, h1, hr) = map-hard_pair soft h in
    record {
      s0 = s0;
      s1 = s1;
      rest = rest;
      split = es;
      first0 = h0;
      second1 = h1 ∙ ap (λ k. (k + out1 (shreg * 2 + bit b) + flip1 e) % 2) (sym h0);
      others = hr ∙ ap (λ k. transmit k (shreg * 2 + bit b) bits) (sym h1);
    }

-- The reader, at a clean state, reads a message with isolated hits to its end.
abbrev Decodes : ℕ → Bool → ℕ → List ℕ → List (Bool × Noise) → Type 0
Decodes t s prev soft items =
    Reads (length items) soft (reader ((t * 2 + bit s) * 2) true prev)
      (word (t * 2 + bit s) items * 2)

-- A hit pair, then a clean one, then what follows.
Reads-hit :
    (e : Bool) (t : ℕ) (s b c : Bool) (prev : ℕ) (bits : List (Bool × Noise)) {soft : List ℕ}
    → prev < 2
    → (p : Pair soft prev ((t * 2 + bit s) * 2 + bit b) (bit e) (bit (negb e)) ((c, clean) ∷ bits))
    → Room (suc (suc (length bits))) (t * 2 + bit s)
    → ((rest : List ℕ) (prev : ℕ)
        → prev < 2
        → map hard rest ≡ transmit prev (((t * 2 + bit s) * 2 + bit b) * 2 + bit c) bits
        → Decodes ((t * 2 + bit s) * 2 + bit b) c prev rest bits)
    → Reads
        (suc (suc (length bits)))
        soft
        (reader ((t * 2 + bit s) * 2) true prev)
        (word ((((t * 2 + bit s) * 2 + bit b)) * 2 + bit c) bits * 2)
Reads-hit e t s b c prev bits hp p room go =
    let u : ℕ = t * 2 + bit s in
    let q : Pair p.rest (hard p.s1) ((u * 2 + bit b) * 2 + bit c) 0 0 bits =
      Pair-of p.rest (hard p.s1) (u * 2 + bit b) c clean bits p.others in
    Reads-step (suc (length bits)) p.s0 p.s1 p.rest _ p.split
      (read_hit t s b prev p.s0 p.s1 hp e (omega (arith, room, bit-lt b)) p.first0 p.second1)
      (Reads-step (length bits) q.s0 q.s1 q.rest _ q.split
        (read_fill u b c (hard p.s1) q.s0 q.s1 (hard-lt p.s1)
          (omega (arith, bit-lt b, bit-lt c, Room-lt (length bits) _ room.1.1)) q.first0 q.second1)
        (go q.rest (hard q.s1) (hard-lt q.s1) q.others))

-- A hit on the last pair costs nothing, since the bit that is missing is 0.
Reads-hit_last :
    (e : Bool) (t : ℕ) (s : Bool) (prev : ℕ) {soft : List ℕ}
    → prev < 2
    → (p : Pair soft prev ((t * 2 + bit s) * 2 + 0) (bit e) (bit (negb e)) [])
    → Room 1 (t * 2 + bit s)
    → Reads 1 soft (reader ((t * 2 + bit s) * 2) true prev) (((t * 2 + bit s) * 2 + 0) * 2)
unfolding read_pairs
Reads-hit_last e t s prev hp p room =
    Reads-step 0 p.s0 p.s1 p.rest _ p.split
      (read_hit t s false prev p.s0 p.s1 hp e (omega (arith, room)) p.first0 p.second1)
      (_, refl, omega arith)

Room-fill :
    (u : ℕ) (b c : Bool) (n : ℕ) → Room (suc (suc n)) u → Room n ((u * 2 + bit b) * 2 + bit c)
Room-fill u b c n room =
    Room-mono n ((u * 2 + 1) * 2 + 1) ((u * 2 + bit b) * 2 + bit c)
      (omega (arith, bit-lt b, bit-lt c)) room.1.1

-- From a clean state the reader brings any message with isolated hits into its register.
pub reads-word :
    (items : List (Bool × Noise)) (t : ℕ) (s : Bool) (soft : List ℕ) (prev : ℕ)
    → prev < 2
    → map hard soft ≡ transmit prev (t * 2 + bit s) items
    → Isolated items
    → Room (length items) (t * 2 + bit s)
    → Decodes t s prev soft items
unfolding read_pairs
reads-word [] t s soft prev hp h iso room = (_, refl, refl)
reads-word ((b, clean) ∷ bits) t s soft prev hp h iso room =
    let u : ℕ = t * 2 + bit s in
    let p : Pair soft prev (u * 2 + bit b) 0 0 bits = Pair-of soft prev u b clean bits h in
    let room' : Room (length bits) (u * 2 + bit b) =
      Room-mono (length bits) (u * 2 + 1) (u * 2 + bit b) (omega (arith, bit-lt b)) room.1 in
    Reads-step (length bits) p.s0 p.s1 p.rest _ p.split
      (read_clean t s b prev p.s0 p.s1 hp (Room-lt (length bits) _ room') p.first0 p.second1)
      (reads-word bits u b p.rest (hard p.s1) (hard-lt p.s1) p.others iso room')
reads-word ((b, first) ∷ []) t s soft prev hp h iso room =
    let u : ℕ = t * 2 + bit s in
    subst (λ c. Reads 1 soft (reader (u * 2) true prev) ((u * 2 + bit c) * 2)) (sym iso)
      (Reads-hit_last true t s prev hp
        (Pair-of soft prev u false first []
          (subst (λ c. map hard soft ≡ transmit prev u ((c, first) ∷ [])) iso h))
        room)
reads-word ((b, second) ∷ []) t s soft prev hp h iso room =
    let u : ℕ = t * 2 + bit s in
    subst (λ c. Reads 1 soft (reader (u * 2) true prev) ((u * 2 + bit c) * 2)) (sym iso)
      (Reads-hit_last false t s prev hp
        (Pair-of soft prev u false second []
          (subst (λ c. map hard soft ≡ transmit prev u ((c, second) ∷ [])) iso h))
        room)
reads-word ((b, first) ∷ (c, clean) ∷ bits) t s soft prev hp h iso room =
    let u : ℕ = t * 2 + bit s in
    Reads-hit true t s b c prev bits hp (Pair-of soft prev u b first ((c, clean) ∷ bits) h) room
      λ rest prev' hp' h'.
        reads-word bits (u * 2 + bit b) c rest prev' hp' h' iso (Room-fill u b c (length bits) room)
reads-word ((b, second) ∷ (c, clean) ∷ bits) t s soft prev hp h iso room =
    let u : ℕ = t * 2 + bit s in
    Reads-hit false t s b c prev bits hp (Pair-of soft prev u b second ((c, clean) ∷ bits) h) room
      λ rest prev' hp' h'.
        reads-word bits (u * 2 + bit b) c rest prev' hp' h' iso (Room-fill u b c (length bits) room)
reads-word ((b, first) ∷ (c, first) ∷ bits) t s soft prev hp h iso room = absurd iso
reads-word ((b, first) ∷ (c, second) ∷ bits) t s soft prev hp h iso room = absurd iso
reads-word ((b, second) ∷ (c, first) ∷ bits) t s soft prev hp h iso room = absurd iso
reads-word ((b, second) ∷ (c, second) ∷ bits) t s soft prev hp h iso room = absurd iso

-- ===== src/Frame/Phase.antt =====
-- BPSK leaves open which of the two phases is a one: a frame received with all bits turned round.
use native.Mathlib.Nat.{pow-suc, one-le-pow}
use openstint.Base.{
  All, List, [], ap, ap₂, arith, bit_and, bit_at, bit_or, bit_or_fields, false, if◌then◌else◌,
  length, ltb, none, refl, some, suc, zero, ℕ, ◌%◌, ◌*◌, ◌+◌, ◌-◌, ◌/◌, ◌<◌, ◌==◌, ◌^◌, ◌∷◌, ◌≡◌,
  ◌≤◌,
}
use openstint.Float.{Float}
use openstint.Transponder.{transponder_props}
use openstint.Frame.{
  Frame, bits_inverted, bits_found, bits, invert, concat_bits, concat_bits32, preamble_pos,
}

-- Soft bits are bytes.
abbrev pub AreBytes : List ℕ → Type 0
AreBytes = All (λ x. x < 256)

top_bit : (x : ℕ) → (if bit_and x 0x80 == 0 then 0 else 1) ≡ x / 128 % 2
top_bit x = bit_at 7 x

length-invert : (soft : List ℕ) → length (invert soft) ≡ length soft
length-invert [] = refl
length-invert (s ∷ soft) = ap suc (length-invert soft)

invert-invert : (soft : List ℕ) → AreBytes soft → invert (invert soft) ≡ soft
invert-invert [] h = refl
invert-invert (s ∷ soft) h = ap₂ ◌∷◌ (omega (arith, h.0)) (invert-invert soft h.1)

-- One round of `concat_bits32`, by the top bit of the byte.
round :
    (v s : ℕ)
    → v < 2 ^ 31
    → (if bit_and s 0x80 == 0 then v * 2 % 2 ^ 32 else bit_or (v * 2 % 2 ^ 32) 1)
      ≡ v * 2 + s / 128 % 2
round v s h =
    let fits : v * 2 % 2 ^ 32 ≡ v * 2 ^ 1 = omega arith in
    ground (arith, fits, top_bit s, bit_or_fields 1 v 1 (omega arith))

le-mul-pow : (a n : ℕ) → a ≤ a * 2 ^ n
le-mul-pow a n = let e : 1 ≤ 2 ^ n = one-le-pow n 2 (omega arith) in grind arith

-- `k` is `2 ^ i` after `i` rounds: the two words stay complements of each other.
concat_bits-invert :
    (n k v w : ℕ) (soft : List ℕ)
    → k * 2 ^ n ≡ 2 ^ 32
    → v + w + 1 ≡ k
    → n ≤ length soft
    → AreBytes soft
    → concat_bits n v soft + concat_bits n w (invert soft) + 1 ≡ 2 ^ 32
unfolding concat_bits
concat_bits-invert zero k v w soft hk e hn hb = omega arith
concat_bits-invert (suc n) k v w [] hk e hn hb = absurd (omega arith)
concat_bits-invert (suc n) k v w (s ∷ soft) hk e hn hb =
    let k' : k * 2 * 2 ^ n ≡ 2 ^ 32 = omega (arith, ap (λ (t : ℕ). k * t) (pow-suc 2 n)) in
    let small : k * 2 ≤ 2 ^ 32 = omega (arith, le-mul-pow (k * 2) n) in
    rw (round v s (omega arith), round w (255 - s) (omega arith))
      (concat_bits-invert n (k * 2) (v * 2 + s / 128 % 2) (w * 2 + (255 - s) / 128 % 2) soft k'
        (omega (arith, hb.0)) (omega arith) hb.1)

-- The word of the bits turned round is the complement.
concat_bits32-invert :
    (soft : List ℕ)
    → 32 ≤ length soft
    → AreBytes soft
    → concat_bits32 (invert soft) ≡ 2 ^ 32 - 1 - concat_bits32 soft
unfolding concat_bits32
concat_bits32-invert soft h b = omega (arith, concat_bits-invert 32 1 0 0 soft refl refl h b)

concat_bits32-lt : (soft : List ℕ) → 32 ≤ length soft → AreBytes soft → concat_bits32 soft < 2 ^ 32
unfolding concat_bits32
concat_bits32-lt soft h b = omega (arith, concat_bits-invert 32 1 0 0 soft refl refl h b)

module _ (F : Float) where
  abbrev pub turned : Frame F → Frame F
  turned f = record f { softbits = invert f.softbits }

  -- A frame of at least 32 bits whose preamble is found, and which does not fit when turned round,
  -- yields the same payload and the same bits when it is received in the opposite phase.
  pub bits-turned :
      (f : Frame F) {pos : ℕ}
      → 32 ≤ length f.softbits
      → AreBytes f.softbits
      → (let word = (transponder_props f.transponder_protocol).preamble in
          preamble_pos (concat_bits32 f.softbits) word ≡ some pos)
      → (let word = (transponder_props f.transponder_protocol).preamble in
          preamble_pos (2 ^ 32 - 1 - concat_bits32 f.softbits) word ≡ none)
      → bits F (turned f) ≡ bits F f
  unfolding bits bits_found bits_inverted
  bits-turned f {pos} long b found not_turned =
      let long_test : ltb (length f.softbits) 32 ≡ false = ground arith in
      let same = concat_bits32-lt f.softbits long b in
      let back : 2 ^ 32 - 1 - (2 ^ 32 - 1 - concat_bits32 f.softbits) ≡ concat_bits32 f.softbits =
        omega arith in
      rw (
        length-invert f.softbits,
        long_test,
        concat_bits32-invert f.softbits long b,
        not_turned,
        back,
        found,
        invert-invert f.softbits b,
      )

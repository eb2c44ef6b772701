-- ===== src/Transponder/Rc3/Rounds.antt =====
-- One round of `decode_rc3` on a clean pair, on a pair that was hit, and on the pair after it.

use openstint.Base.{
  Bool, arith, bit_and, bit_and-zero, bit_or, bit_or_fields, false, negb, true, ℕ, ◌%◌, ◌*◌, ◌+◌,
  ◌<◌, ◌^◌, ◌∙◌, ◌≡◌,
}
use openstint.Transponder.Rc3.{correct}
use openstint.Transponder.Rc3.Code.{bit, and_push}

pub bit-lt : (b : Bool) → bit b < 2
bit-lt true = omega arith
bit-lt false = omega arith

-- Bit 1 of the register.
and_two : (t : ℕ) (s : Bool) → bit_and ((t * 2 + bit s) * 2) 2 ≡ bit s * 2
and_two t s =
    let pad : (t * 2 + bit s) * 2 ≡ (t * 2 + bit s) * 2 + 0 = omega arith in
    rw pad (
      omega (
        arith,
        and_push (t * 2 + bit s) 0 2 (omega arith),
        and_push t (bit s) 1 (bit-lt s),
        bit_and-zero t,
        bit-lt s,
      ))

or_low : (y x : ℕ) → x < 2 → bit_or (y * 2) x ≡ y * 2 + x
or_low y x h = bit_or_fields 1 y x h

or_two : (t s b : ℕ) → s < 2 → b < 2 → bit_or (t * 2 * 2) (bit_or (s * 2) b) ≡ (t * 2 + s) * 2 + b
or_two t s b hs hb =
    let quad : t * 2 * 2 ≡ t * 2 ^ 2 = omega arith in
    rw (or_low s b hb, quad) (bit_or_fields 2 t (s * 2 + b) (omega arith) ∙ omega arith)

module _ (t : ℕ) where
  -- A clean pair after a clean one: the bit enters the register.
  pub correct_clean :
      (q s b : Bool)
      → correct
          ((t * 2 + bit s) * 2)
          true
          (bit q)
          ((bit q + bit s + bit b) % 2)
          ((bit q + bit b) % 2)
        ≡ (((t * 2 + bit s) * 2 + bit b) * 2 % 2 ^ 64, true)
  unfolding correct
  correct_clean q s b = ground (arith, and_two t s, or_low (t * 2 + bit s) (bit b) (bit-lt b))

  -- A pair that was hit: the two estimates differ, and the register keeps a gap.
  pub correct_hit :
      (q s b e : Bool)
      → correct
          ((t * 2 + bit s) * 2)
          true
          (bit q)
          ((bit q + bit s + bit b + bit e) % 2)
          ((bit q + bit b + bit (negb e)) % 2)
        ≡ ((t * 2 + bit s) * 2 * 2 % 2 ^ 64, false)
  unfolding correct
  correct_hit q s b e = ground (arith, and_two t s)

  -- A clean pair after one that was hit: the gap `s` is filled in and the bit enters.
  pub correct_fill :
      (q s b : Bool)
      → correct (t * 2 * 2) false (bit q) ((bit q + bit s + bit b) % 2) ((bit q + bit b) % 2)
        ≡ (((t * 2 + bit s) * 2 + bit b) * 2 % 2 ^ 64, true)
  unfolding correct
  correct_fill q s b = ground (arith, or_two t (bit s) (bit b) (bit-lt s) (bit-lt b))

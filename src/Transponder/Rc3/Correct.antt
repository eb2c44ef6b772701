-- ===== src/Transponder/Rc3/Correct.antt =====
-- Rounds of `decode_rc3` against what was sent: a clean pair, a hit one, and the one after it.
use openstint.Base.{
  Bool, List, [], ap, arith, bit_and, bit_xor, bit_xor-bits, false, map, negb, popcount, refl, some,
  suc, true, zero, ℕ, ◌%◌, ◌*◌, ◌+◌, ◌<◌, ◌^◌, ◌∙◌, ◌∷◌, ◌≡◌, ◌≤◌,
}
use openstint.Transponder.Rc3.{hard, code_mask, Reader, correct, read_pair, read_pairs}
use openstint.Transponder.Rc3.Code.{bit, out0, out1, upper, upper-lt, out0_lem, out1_lem, code_lem}
use openstint.Transponder.Rc3.Rounds.{bit-lt, correct_clean, correct_hit, correct_fill}

bit_of : (n : ℕ) → n < 2 → (b : Bool) × (n ≡ bit b)
bit_of zero h = (false, refl)
bit_of (suc zero) h = (true, refl)
bit_of (suc (suc n)) h = absurd (omega arith)

-- The register has room for `n` more bits.
abbrev pub Room : ℕ → ℕ → Type 0
Room zero shreg = shreg < 2 ^ 60
Room (suc n) shreg = (shreg < 2 ^ 60) × Room n (shreg * 2 + 1)

pub Room-mono : (n a b : ℕ) → b ≤ a → Room n a → Room n b
Room-mono zero a b h r = omega arith
Room-mono (suc n) a b h r =
    (omega (arith, r.0), Room-mono n (a * 2 + 1) (b * 2 + 1) (omega arith) r.1)

pub Room-lt : (n a : ℕ) → Room n a → a < 2 ^ 60
Room-lt zero a r = r
Room-lt (suc n) a r = r.0

pub map-hard_pair :
    (soft : List ℕ) {a b : ℕ} {l : List ℕ}
    → map hard soft ≡ a ∷ b ∷ l
    → (s0 : ℕ) × (s1 : ℕ) × (rest : List ℕ) × (soft ≡ s0 ∷ s1 ∷ rest)
      × (hard s0 ≡ a)
      × (hard s1 ≡ b)
      × (map hard rest ≡ l)
map-hard_pair [] h = cc
map-hard_pair (s0 ∷ []) h = cc
map-hard_pair (s0 ∷ s1 ∷ rest) h = (s0, s1, rest, refl, cc, cc, cc)

abbrev pub reader : ℕ → Bool → ℕ → Reader
reader shreg ok prev = record { shreg = shreg; last_ok = ok; prev_sym = prev }

-- One round decodes the two bits that were sent.
read_pair_lem :
    (shreg : ℕ) (ok : Bool) (prev s0 s1 b0 b1 q : ℕ) {step : ℕ × Bool}
    → prev < 2
    → b0 < 2
    → b1 < 2
    → hard s0 ≡ (prev + b0) % 2
    → hard s1 ≡ (hard s0 + b1) % 2
    → popcount (bit_and shreg code_mask) % 2 ≡ q
    → correct shreg ok q b0 b1 ≡ step
    → read_pair s0 s1 (reader shreg ok prev) ≡ reader step.0 step.1 (hard s1)
unfolding read_pair
read_pair_lem shreg ok prev s0 s1 b0 b1 q hp h0 h1 e0 e1 eq es =
    let x0 : bit_xor (hard s0) prev ≡ b0 =
      bit_xor-bits (hard s0) prev (omega arith) hp ∙ omega arith in
    let x1 : bit_xor (hard s1) (hard s0) ≡ b1 =
      bit_xor-bits (hard s1) (hard s0) (omega arith) (omega arith) ∙ omega arith in
    rw (x0, x1, eq, es)

-- The parity that the reader computes, with and without the bit `s` in the register.
reader_parity :
    (t : ℕ) (s : Bool) → popcount (bit_and ((t * 2 + bit s) * 2) code_mask) % 2 ≡ upper t
reader_parity t s =
    let pad : (t * 2 + bit s) * 2 ≡ (t * 2 + bit s) * 2 + 0 = omega arith in
    rw pad (code_lem t (bit s) 0 (bit-lt s) (omega arith))

module _ (t : ℕ) (s b : Bool) (prev s0 s1 : ℕ) (hp : prev < 2) where
  abbrev pub next : ℕ
  next = (t * 2 + bit s) * 2 + bit b

  -- What a pair with the flips `f0` and `f1` decodes to.
  abbrev b0 : ℕ → Bool → ℕ
  b0 f0 q = (bit q + bit s + bit b + f0) % 2

  abbrev b1 : ℕ → Bool → ℕ
  b1 f1 q = (bit q + bit b + f1) % 2

  sent0 :
      (f0 : ℕ) (q : Bool)
      → upper t ≡ bit q
      → hard s0 ≡ (prev + out0 next + f0) % 2
      → hard s0 ≡ (prev + b0 f0 q) % 2
  sent0 f0 q eq e = omega (arith, out0_lem t (bit s) (bit b) (bit-lt s) (bit-lt b))

  sent1 :
      (f1 : ℕ) (q : Bool)
      → upper t ≡ bit q
      → hard s1 ≡ (hard s0 + out1 next + f1) % 2
      → hard s1 ≡ (hard s0 + b1 f1 q) % 2
  sent1 f1 q eq e = omega (arith, out1_lem t (bit s) (bit b) (bit-lt s) (bit-lt b))

  plain : (q : Bool) → (b0 0 q ≡ (bit q + bit s + bit b) % 2) × (b1 0 q ≡ (bit q + bit b) % 2)
  plain q = omega arith

  pub read_clean :
      next < 2 ^ 60
      → hard s0 ≡ (prev + out0 next + 0) % 2
      → hard s1 ≡ (hard s0 + out1 next + 0) % 2
      → read_pair s0 s1 (reader ((t * 2 + bit s) * 2) true prev) ≡ reader (next * 2) true (hard s1)
  read_clean small e0 e1 =
      let (q, eq) = bit_of (upper t) (upper-lt t) in
      let es : correct ((t * 2 + bit s) * 2) true (bit q) (b0 0 q) (b1 0 q)
          ≡ (next * 2 % 2 ^ 64, true) =
        rw ((plain q).0, (plain q).1) (correct_clean t q s b) in
      read_pair_lem _ true prev s0 s1 (b0 0 q) (b1 0 q) (bit q) hp (omega arith) (omega arith)
        (sent0 0 q eq e0) (sent1 0 q eq e1) (reader_parity t s ∙ eq) es
      ∙ ap (λ k. reader k true (hard s1)) (omega arith)

  pub read_fill :
      next < 2 ^ 60
      → hard s0 ≡ (prev + out0 next + 0) % 2
      → hard s1 ≡ (hard s0 + out1 next + 0) % 2
      → read_pair s0 s1 (reader (t * 2 * 2) false prev) ≡ reader (next * 2) true (hard s1)
  read_fill small e0 e1 =
      let (q, eq) = bit_of (upper t) (upper-lt t) in
      let es : correct (t * 2 * 2) false (bit q) (b0 0 q) (b1 0 q) ≡ (next * 2 % 2 ^ 64, true) =
        rw ((plain q).0, (plain q).1) (correct_fill t q s b) in
      let gap : t * 2 * 2 ≡ (t * 2 + bit false) * 2 = omega arith in
      read_pair_lem _ false prev s0 s1 (b0 0 q) (b1 0 q) (bit q) hp (omega arith) (omega arith)
        (sent0 0 q eq e0) (sent1 0 q eq e1) (rw gap (reader_parity t false) ∙ eq) es
      ∙ ap (λ k. reader k true (hard s1)) (omega arith)

  -- Either bit of the pair is hit: the register keeps a gap for the bit.
  pub read_hit :
      (e : Bool)
      → next < 2 ^ 60
      → hard s0 ≡ (prev + out0 next + bit e) % 2
      → hard s1 ≡ (hard s0 + out1 next + bit (negb e)) % 2
      → read_pair s0 s1 (reader ((t * 2 + bit s) * 2) true prev)
        ≡ reader ((t * 2 + bit s) * 2 * 2) false (hard s1)
  read_hit e small e0 e1 =
      let (q, eq) = bit_of (upper t) (upper-lt t) in
      read_pair_lem _ true prev s0 s1 (b0 (bit e) q) (b1 (bit (negb e)) q) (bit q) hp (omega arith)
        (omega arith) (sent0 (bit e) q eq e0) (sent1 (bit (negb e)) q eq e1)
        (reader_parity t s ∙ eq) (correct_hit t q s b e)
      ∙ ap (λ k. reader k false (hard s1)) (omega arith)

-- What `n` rounds over `soft` leave in the register.
abbrev pub Reads : ℕ → List ℕ → Reader → ℕ → Type 0
Reads n soft r shreg = (r' : Reader) × (read_pairs n soft r ≡ some r') × (r'.shreg ≡ shreg)

pub Reads-step :
    (n s0 s1 : ℕ) (rest : List ℕ) {soft : List ℕ} (r : Reader) {r' : Reader} {shreg : ℕ}
    → soft ≡ s0 ∷ s1 ∷ rest
    → read_pair s0 s1 r ≡ r'
    → Reads n rest r' shreg
    → Reads (suc n) soft r shreg
unfolding read_pairs
Reads-step n s0 s1 rest r e er (x, p, q) = (x, rw (e, er) p, q)

pub hard-lt : (s : ℕ) → hard s < 2
hard-lt s = ground arith

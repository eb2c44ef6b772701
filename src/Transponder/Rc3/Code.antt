-- ===== src/Transponder/Rc3/Code.antt =====
-- The convolutional code that src/transponder.cpp describes above `decode_rc3`, sent over a channel that may
-- flip one of the two bits of a pair, and what the reader makes of it.
use Prim.Native.Nat.{min}
use openstint.Base.{
  Bool, List, [], ap, arith, bit_and, bit_and_step, false, ones, ones_step, popcount, suc, true, ℕ,
  ◌%◌, ◌*◌, ◌+◌, ◌/◌, ◌<◌, ◌∙◌, ◌∷◌, ◌≡◌,
}
use openstint.Transponder.Rc3.{code_mask}

abbrev pub bit : Bool → ℕ
bit true = 1
bit false = 0

-- Which bit of a pair the channel flips.
pub data Noise : Type 0 where
  clean first second : Noise

abbrev pub flip0 : Noise → ℕ
flip0 first = 1
flip0 _ = 0

abbrev pub flip1 : Noise → ℕ
flip1 second = 1
flip1 _ = 0

-- The encoder's register after a bit, and its two outputs, by the polynomials of the comment.
abbrev pub out0 : ℕ → ℕ
out0 shreg = popcount (bit_and shreg 0xEEC20F) % 2

abbrev pub out1 : ℕ → ℕ
out1 shreg = popcount (bit_and shreg 0xEEC20D) % 2

-- The symbols on air: differential encoding of the pairs, with the channel's flips.
unfoldable pub transmit : ℕ → ℕ → List (Bool × Noise) → List ℕ
transmit prev shreg [] = []
transmit prev shreg ((b, e) ∷ bits) =
    let next = shreg * 2 + bit b in
    let sym = (prev + out0 next + flip0 e) % 2 in
    let next_sym = (sym + out1 next + flip1 e) % 2 in sym ∷ next_sym ∷ transmit next_sym next bits

-- The bits as a number, the first sent on top.
abbrev pub word : ℕ → List (Bool × Noise) → ℕ
word shreg [] = shreg
word shreg ((b, e) ∷ bits) = word (shreg * 2 + bit b) bits

-- No two pairs in a row are hit, and if the last is hit its bit is 0.
abbrev pub Isolated : List (Bool × Noise) → Type 0
Isolated [] = Unit {0}
Isolated ((b, clean) ∷ bits) = Isolated bits
Isolated ((b, first) ∷ []) = b ≡ false
Isolated ((b, second) ∷ []) = b ≡ false
Isolated ((b, first) ∷ (c, clean) ∷ bits) = Isolated bits
Isolated ((b, second) ∷ (c, clean) ∷ bits) = Isolated bits
Isolated ((b, first) ∷ (c, first) ∷ bits) = ⊥
Isolated ((b, first) ∷ (c, second) ∷ bits) = ⊥
Isolated ((b, second) ∷ (c, first) ∷ bits) = ⊥
Isolated ((b, second) ∷ (c, second) ∷ bits) = ⊥

-- The part of the register's parity that lies above its two lowest bits.
pub upper : ℕ → ℕ
upper t = ones 62 (bit_and t 0x3BB083) % 2

-- A mask on a register, digit by digit.
pub and_push : (a b m : ℕ) → b < 2 → bit_and (a * 2 + b) m ≡ bit_and a (m / 2) * 2 + min b (m % 2)
and_push a b m h =
    let half : (a * 2 + b) / 2 ≡ a = omega arith in
    let low : (a * 2 + b) % 2 ≡ b = omega arith in
    bit_and_step (a * 2 + b) m ∙ rw (half, low) (omega arith)

ones_push :
    (n a b m : ℕ)
    → b < 2
    → ones (suc n) (bit_and (a * 2 + b) m) ≡ min b (m % 2) + ones n (bit_and a (m / 2))
ones_push n a b m h =
    let x = bit_and a (m / 2) * 2 + min b (m % 2) in
    let half : x / 2 ≡ bit_and a (m / 2) = omega arith in
    let low : x % 2 ≡ min b (m % 2) = omega arith in rw (and_push a b m h, ones_step n x, half, low)

-- The parity under a 24-bit mask of a register with the two lowest bits `s` and `b`.
parity_lem :
    (t s b m : ℕ)
    → s < 2
    → b < 2
    → popcount (bit_and ((t * 2 + s) * 2 + b) m)
      ≡ min b (m % 2) + (min s (m / 2 % 2) + ones 62 (bit_and t (m / 2 / 2)))
unfolding popcount
parity_lem t s b m hs hb =
    ones_push 63 (t * 2 + s) b m hb ∙ ap (λ k. min b (m % 2) + k) (ones_push 62 t s (m / 2) hs)

pub upper-lt : (t : ℕ) → upper t < 2
unfolding upper
upper-lt t = omega arith

pub out0_lem : (t s b : ℕ) → s < 2 → b < 2 → out0 ((t * 2 + s) * 2 + b) ≡ (upper t + s + b) % 2
unfolding upper
out0_lem t s b hs hb = omega (arith, parity_lem t s b 0xEEC20F hs hb)

pub out1_lem : (t s b : ℕ) → s < 2 → b < 2 → out1 ((t * 2 + s) * 2 + b) ≡ (upper t + b) % 2
unfolding upper
out1_lem t s b hs hb = omega (arith, parity_lem t s b 0xEEC20D hs hb)

-- The reader's parity, which leaves out the two lowest bits.
pub code_lem :
    (t s b : ℕ) → s < 2 → b < 2 → popcount (bit_and ((t * 2 + s) * 2 + b) code_mask) % 2 ≡ upper t
unfolding upper
code_lem t s b hs hb = omega (arith, parity_lem t s b 0xEEC20C hs hb)

-- ===== src/Transponder/Rc3/Message.antt =====
-- The message inside an RC3 frame, as the comment in src/transponder.cpp lays it out: chunks of three reversed id bits with a
-- status bit, and a zero byte behind them.
use native.Mathlib.Numerals.{add-one}
use openstint.Base.{
  Bool, List, [], ap, arith, bit_at, bit_or_fields, div-pow-suc, false, length, refl, suc, true,
  zero, ℕ, ◌%◌, ◌*◌, ◌+◌, ◌/◌, ◌<◌, ◌==◌, ◌^◌, ◌∙◌, ◌∷◌, ◌≡◌, ◌≢◌, ◌≤◌,
}
use openstint.Transponder.Rc3.{unscramble}
use openstint.Transponder.Rc3.Code.{bit}
use openstint.Transponder.Rc3.Rounds.{bit-lt}

-- Three bits of the id, from the highest, and the status bit that goes with them.
pub record Chunk : Type 0 where
  pub x2 : Bool
  pub x1 : Bool
  pub x0 : Bool
  pub status : Bool

abbrev pub id_of : ℕ → List Chunk → ℕ
id_of tid [] = tid
id_of tid (c ∷ cs) = id_of (tid * 8 + (bit c.x2 * 4 + (bit c.x1 * 2 + bit c.x0))) cs

abbrev pub status_of : ℕ → List Chunk → ℕ
status_of st [] = st
status_of st (c ∷ cs) = status_of (st * 2 + bit c.status) cs

-- The lowest nibble of the message holds the first chunk.
abbrev pub message_of : List Chunk → ℕ
message_of [] = 0
message_of (c ∷ cs) = bit c.status + bit c.x2 * 2 + bit c.x1 * 4 + bit c.x0 * 8 + message_of cs * 16

-- Room for `n` more chunks in a 32-bit id and an 8-bit status.
abbrev pub Fits : ℕ → ℕ → ℕ → Type 0
Fits zero tid st = (tid < 2 ^ 28) × (st < 2 ^ 8)
Fits (suc n) tid st = (tid < 2 ^ 28) × (st < 2 ^ 7) × Fits n (tid * 8 + 7) (st * 2 + 1)

Fits-mono : (n a b c d : ℕ) → c ≤ a → d ≤ b → Fits n a b → Fits n c d
Fits-mono zero a b c d p q f = omega arith
Fits-mono (suc n) a b c d p q f = (
  omega (arith, f.0),
  omega (arith, f.1),
  Fits-mono n (a * 8 + 7) (b * 2 + 1) (c * 8 + 7) (d * 2 + 1) (omega arith) (omega arith) f.2,
)

-- A round on a status bit and a round on an id bit.
round_status :
    (n i m tid st b : ℕ)
    → i % 4 ≡ 0
    → m / 2 ^ i % 2 ≡ b
    → st < 2 ^ 7
    → unscramble (suc n) i m tid st ≡ unscramble n (i + 1) m tid (st * 2 + b)
unfolding unscramble
round_status n i m tid st b hi hb small =
    let test : (i % 4 == 0) ≡ true = ground arith in
    rw (test, bit_at i m, hb, bit_or_fields 1 st b (omega arith))
      (ap (unscramble n (i + 1) m tid) (omega arith))

round_id :
    (n i m tid st b : ℕ)
    → i % 4 ≢ 0
    → m / 2 ^ i % 2 ≡ b
    → tid < 2 ^ 31
    → unscramble (suc n) i m tid st ≡ unscramble n (i + 1) m (tid * 2 + b) st
unfolding unscramble
round_id n i m tid st b hi hb small =
    let test : (i % 4 == 0) ≡ false = ground arith in
    let fits : tid * 2 % 2 ^ 32 ≡ tid * 2 ^ 1 = omega arith in
    rw (test, bit_at i m, hb, fits, bit_or_fields 1 tid b (omega arith))

div-pow-add-one : (i m x : ℕ) → m / 2 ^ i ≡ x → m / 2 ^ (i + 1) ≡ x / 2
div-pow-add-one i m x e = rw (add-one i, div-pow-suc i m, e)

-- Four rounds take in a chunk.
unscramble_chunk :
    (n i m tid st : ℕ) (c : Chunk) (rest : ℕ)
    → i % 4 ≡ 0
    → m / 2 ^ i ≡ bit c.status + bit c.x2 * 2 + bit c.x1 * 4 + bit c.x0 * 8 + rest * 16
    → tid < 2 ^ 28
    → st < 2 ^ 7
    → (unscramble (suc (suc (suc (suc n)))) i m tid st
        ≡ unscramble n
            (i + 1 + 1 + 1 + 1)
            m
            (tid * 8 + (bit c.x2 * 4 + (bit c.x1 * 2 + bit c.x0)))
            (st * 2 + bit c.status))
      × (m / 2 ^ (i + 1 + 1 + 1 + 1) ≡ rest)
unscramble_chunk n i m tid st c rest hi hm ht hs =
    let l0 = bit-lt c.status in
    let l1 = bit-lt c.x2 in
    let l2 = bit-lt c.x1 in
    let l3 = bit-lt c.x0 in
    let e1 = div-pow-add-one i m _ hm in
    let e2 = div-pow-add-one (i + 1) m _ e1 in
    let e3 = div-pow-add-one (i + 1 + 1) m _ e2 in
    let e4 = div-pow-add-one (i + 1 + 1 + 1) m _ e3 in
    (
      round_status _ i m tid st (bit c.status) hi (omega arith) hs
          ∙ round_id _ (i + 1) m tid _ (bit c.x2) (omega arith) (omega arith) (omega arith)
          ∙ round_id _ (i + 1 + 1) m _ _ (bit c.x1) (omega arith) (omega arith) (omega arith)
          ∙ round_id n (i + 1 + 1 + 1) m _ _ (bit c.x0) (omega arith) (omega arith) (omega arith)
          ∙ ap (λ k. unscramble n (i + 1 + 1 + 1 + 1) m k (st * 2 + bit c.status)) (omega arith),
      e4 ∙ omega arith,
    )

-- Four rounds for each chunk.
abbrev pub rounds : List Chunk → ℕ
rounds [] = 0
rounds (c ∷ cs) = suc (suc (suc (suc (rounds cs))))

pub unscramble-chunks :
    (cs : List Chunk) (i m tid st : ℕ)
    → i % 4 ≡ 0
    → m / 2 ^ i ≡ message_of cs
    → Fits (length cs) tid st
    → unscramble (rounds cs) i m tid st ≡ (id_of tid cs, status_of st cs)
unfolding unscramble
unscramble-chunks [] i m tid st hi hm f = refl
unscramble-chunks (c ∷ cs) i m tid st hi hm f =
    let (step, left) = unscramble_chunk (rounds cs) i m tid st c (message_of cs) hi hm f.0 f.1 in
    step
    ∙ unscramble-chunks cs (i + 1 + 1 + 1 + 1) m _ _ (omega arith) left (
        Fits-mono (length cs) (tid * 8 + 7) (st * 2 + 1) _ _
          (omega (arith, bit-lt c.x2, bit-lt c.x1, bit-lt c.x0)) (omega (arith, bit-lt c.status))
          f.2)

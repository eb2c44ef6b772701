-- ===== src/Programs/Capture/Complete.antt =====
-- That the replay of src/capture.cpp loses no sample.
use mathlib.Core.List.{append-nil}
use native.Mathlib.Decide.{dec_lt}
use openstint.Base.{
  Bool-cases, List, [], ap, arith, drop, drop-whole, inl, inr, length, length-drop, length-take,
  refl, suc, sym, take, true, zero, ℕ, ◌*◌, ◌++◌, ◌/◌, ◌==◌, ◌∙◌, ◌∷◌, ◌≡◌, ◌≤◌,
}
use openstint.Base.Int.{ℤ}
use openstint.Programs.Capture.{samples_of, chunk_bytes, replay_stream, samples_fed}

-- A cut between two samples.
samples_of_cut :
    (read : ℕ → ℤ) (n m : ℕ) (bytes : List ℕ)
    → m ≡ n * 2
    → samples_of read (take m bytes) ++ samples_of read (drop m bytes) ≡ samples_of read bytes
unfolding samples_of
samples_of_cut read zero zero bytes h = refl
samples_of_cut read zero (suc m) bytes h = absurd (omega (arith, h))
samples_of_cut read (suc n) zero bytes h = absurd (omega (arith, h))
samples_of_cut read (suc n) (suc zero) bytes h = absurd (omega (arith, h))
samples_of_cut read (suc n) (suc (suc m)) [] h = refl
samples_of_cut read (suc n) (suc (suc m)) (a ∷ []) h = refl
samples_of_cut read (suc n) (suc (suc m)) (a ∷ b ∷ bytes) h =
    ap (◌∷◌ (record { re = read a; im = read b }))
      (samples_of_cut read n m bytes (omega (arith, h)))

-- A last odd byte belongs to no sample.
samples_of_even :
    (read : ℕ → ℤ) (m : ℕ) (bytes : List ℕ)
    → m ≡ length bytes / 2 * 2
    → samples_of read (take m bytes) ≡ samples_of read bytes
unfolding samples_of
samples_of_even read zero [] h = refl
samples_of_even read (suc m) [] h = refl
samples_of_even read zero (a ∷ []) h = refl
samples_of_even read (suc m) (a ∷ []) h = absurd (omega (arith, h))
samples_of_even read zero (a ∷ b ∷ bytes) h = absurd (omega (arith, h))
samples_of_even read (suc zero) (a ∷ b ∷ bytes) h = absurd (omega (arith, h))
samples_of_even read (suc (suc m)) (a ∷ b ∷ bytes) h =
    ap (◌∷◌ (record { re = read a; im = read b })) (samples_of_even read m bytes (omega (arith, h)))

samples_of_short : (read : ℕ → ℤ) (bytes : List ℕ) → length bytes ≤ 1 → samples_of read bytes ≡ []
unfolding samples_of
samples_of_short read [] h = refl
samples_of_short read (a ∷ []) h = refl
samples_of_short read (a ∷ b ∷ bytes) h = absurd (omega arith)

pub equals_zero : (n : ℕ) → (n == 0) ≡ true → n ≡ 0
equals_zero n h = ground arith

-- A chunk and what is behind it.
chunk_cut :
    (read : ℕ → ℤ) (m : ℕ) (bytes : List ℕ)
    → m ≡ length (take chunk_bytes bytes) / 2 * 2
    → samples_of read (take m bytes) ++ samples_of read (drop chunk_bytes bytes)
      ≡ samples_of read bytes
chunk_cut read m bytes h = elim (dec_lt (length bytes) chunk_bytes) [
  | yes last ↦
      let count = length-take chunk_bytes bytes in
      ap (λ t. samples_of read (take m bytes) ++ samples_of read t)
        (drop-whole chunk_bytes bytes (omega (arith, last)))
      ∙ ap (λ t. samples_of read (take m bytes) ++ t) (samples_of_short read [] (omega arith))
      ∙ append-nil (samples_of read (take m bytes))
      ∙ samples_of_even read m bytes (omega (arith, h, count, last))
  | no more ↦
      let whole : m ≡ chunk_bytes = omega (arith, h, length-take chunk_bytes bytes, more) in
      ap (λ k. samples_of read (take k bytes) ++ samples_of read (drop chunk_bytes bytes)) whole
      ∙ samples_of_cut read 16384 chunk_bytes bytes refl
]

-- The samples of a stream in their order: a replay that is not stopped before the stream's last
-- chunk feeds every sample of it to the receiver once, whatever the chunks cut, and a last odd byte
-- to none.
pub samples_fed-replay_stream :
    (read : ℕ → ℤ) (n : ℕ) (bytes : List ℕ)
    → length bytes ≤ chunk_bytes * n
    → samples_fed read (replay_stream n bytes).0 ≡ samples_of read bytes
unfolding replay_stream samples_fed
samples_fed-replay_stream read zero bytes h = sym (samples_of_short read bytes (omega (arith, h)))
samples_fed-replay_stream read (suc n) bytes h =
    let byte_count = length (take chunk_bytes bytes) / 2 * 2 in
    let rest =
      samples_fed-replay_stream read n (drop chunk_bytes bytes)
        (omega (arith, h, length-drop chunk_bytes bytes)) in
    elim (Bool-cases (byte_count == 0)) [
      | inl nothing ↦
          let few : byte_count ≡ 0 = equals_zero byte_count nothing in
          rw nothing
            (sym (samples_of_short read bytes (omega (arith, few, length-take chunk_bytes bytes))))
      | inr some_bytes ↦ rw some_bytes (
          ap (λ t. samples_of read (take byte_count bytes) ++ t) rest
          ∙ chunk_cut read byte_count bytes refl)
    ]

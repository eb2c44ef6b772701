-- ===== src/Programs/Capture/Files.antt =====
-- That the replay of several files by src/capture.cpp loses no sample of any of them.
use mathlib.Core.List.{append-nil, append_assoc}
use openstint.Base.{
  Bool-cases, List, Option, [], ap, ap₂, arith, drop, inl, inr, length, length-drop, length-take,
  none, refl, some, suc, sym, take, zero, ℕ, ◌*◌, ◌++◌, ◌+◌, ◌/◌, ◌==◌, ◌∙◌, ◌∷◌, ◌≡◌, ◌≤◌,
}
use openstint.Base.Int.{ℤ}
use openstint.Detector.{Complex}
use openstint.Programs.Capture.{
  Step, feeds, reports, samples_of, chunk_bytes, replay_stream, replay_source, replay_capture,
  samples_fed,
}
use openstint.Programs.Capture.Complete.{samples_fed-replay_stream}

-- The rounds that a stream takes, and those within which some files are replayed.
abbrev rounds_of : List ℕ → ℕ
rounds_of bytes = (length bytes + 32767) / 32768

unfoldable pub rounds_for : List (Option (List ℕ)) → ℕ
rounds_for [] = 0
rounds_for (none ∷ sources) = 1 + rounds_for sources
rounds_for (some bytes ∷ sources) = 1 + rounds_of bytes + rounds_for sources

-- The samples of the files that can be opened.
unfoldable pub recorded : (ℕ → ℤ) → List (Option (List ℕ)) → List Complex
recorded read [] = []
recorded read (none ∷ sources) = recorded read sources
recorded read (some bytes ∷ sources) = samples_of read bytes ++ recorded read sources

replay_stream-left : (n : ℕ) (bytes : List ℕ) → n ≤ (replay_stream n bytes).1 + rounds_of bytes
unfolding replay_stream
replay_stream-left zero bytes = omega arith
replay_stream-left (suc n) bytes =
    let byte_count = length (take chunk_bytes bytes) / 2 * 2 in
    let taken = length-take chunk_bytes bytes in
    elim (Bool-cases (byte_count == 0)) [
      | inl nothing ↦ rw nothing (omega arith)
      | inr more ↦
          let some_bytes : 1 ≤ byte_count = ground (arith, more) in
          rw more (
            omega (
              arith,
              some_bytes,
              taken,
              length-drop chunk_bytes bytes,
              replay_stream-left n (drop chunk_bytes bytes),
            ))
    ]

samples_fed-append :
    (read : ℕ → ℤ) (xs ys : List Step)
    → samples_fed read (xs ++ ys) ≡ samples_fed read xs ++ samples_fed read ys
unfolding samples_fed
samples_fed-append read [] ys = refl
samples_fed-append read (feeds bytes ∷ xs) ys =
    ap (λ t. samples_of read bytes ++ t) (samples_fed-append read xs ys)
    ∙ sym (append_assoc (samples_of read bytes) (samples_fed read xs) (samples_fed read ys))
samples_fed-append read (reports ∷ xs) ys = samples_fed-append read xs ys

-- With the last report behind it.
source_fed :
    (read : ℕ → ℤ) (n : ℕ) (bytes : List ℕ)
    → rounds_of bytes ≤ n
    → samples_fed read (replay_source (some bytes) n).0 ≡ samples_of read bytes
unfolding replay_source samples_fed
source_fed read n bytes h =
    samples_fed-append read (replay_stream n bytes).0 (reports ∷ [])
    ∙ append-nil (samples_fed read (replay_stream n bytes).0)
    ∙ samples_fed-replay_stream read n bytes (omega (arith, h))

-- A replay that is not stopped before its files are through feeds every sample of each file that
-- can be opened to the receiver once, in the order of the files.
pub samples_fed-replay_capture :
    (read : ℕ → ℤ) (sources : List (Option (List ℕ))) (n : ℕ)
    → rounds_for sources ≤ n
    → samples_fed read (replay_capture sources n) ≡ recorded read sources
unfolding replay_capture replay_source rounds_for recorded samples_fed
samples_fed-replay_capture read [] n h = refl
samples_fed-replay_capture read (none ∷ sources) zero h = absurd (omega arith)
samples_fed-replay_capture read (some bytes ∷ sources) zero h = absurd (omega arith)
samples_fed-replay_capture read (none ∷ sources) (suc n) h =
    samples_fed-replay_capture read sources (suc n) (omega arith)
samples_fed-replay_capture read (some bytes ∷ sources) (suc n) h =
    let (steps, left) = replay_source (some bytes) (suc n) in
    samples_fed-append read steps (replay_capture sources left)
    ∙ ap₂ ◌++◌ (source_fed read (suc n) bytes (omega (arith, h))) (
        samples_fed-replay_capture read sources left
          (omega (arith, h, replay_stream-left (suc n) bytes)))

-- ===== src/Receiver/Frames/Progress.antt =====
-- That the loop of `detect_frames` of src/commons.cpp gets through a frame, and when.
use openstint.Base.{
  Bool, List, Option, ap, arith, bind-some, inl, inr, length, refl, some, subst, suc, sym, zero, ℕ,
  ◌*◌, ◌+◌, ◌-◌, ◌<◌, ◌∙◌, ◌≡◌, ◌≤◌,
}
use openstint.Float.{Float}
use openstint.Transponder.{Codec}
use openstint.Detector.{Complex}
use openstint.Reader.Liquid.{Dsp}
use openstint.Statistics.{register_frame}
use openstint.Receiver.{process_frame}
use openstint.Receiver.Frames.{frame_seek, frame_found, Station, mode_symbol, detect_rounds}
use openstint.Receiver.Frames.Ready.{Processed, IsReady, InMode, left_in, symbols_left}
use openstint.Receiver.Frames.Rounds.{mode_symbol-IsReady}

module _ (F : Float) (dsp : Dsp F) (fir : List F.R → List F.R → List F.R) (sample_rate : ℕ)
    (codec : Codec) where
  abbrev St : Type 0
  St = Station F dsp fir sample_rate codec

  -- Seeking again, with the complete frame processed over the receiver as it was, and counted with
  -- the result.
  pub record IsFinished (st : St) (out : Bool × St) : Type 0 where
    pub mode : out.1.frame_parse_mode ≡ frame_seek
    pub frame : Processed F dsp fir sample_rate codec st out.1

  abbrev rounds : ℕ → List Complex → ℕ → ℕ → Bool → St → Option (Bool × St)
  rounds timestamp samples = detect_rounds F dsp fir sample_rate codec timestamp samples

  Processed-before :
      (before st out : St)
      → st.rx_stats ≡ before.rx_stats
      → st.receiver ≡ before.receiver
      → Processed F dsp fir sample_rate codec st out
      → Processed F dsp fir sample_rate codec before out
  Processed-before before st out stats received p = record {
    processed = p.processed;
    complete = p.complete;
    result = ap (process_frame F fir sample_rate codec out.frame) (sym received) ∙ p.result;
    counted = p.counted ∙ ap (register_frame F p.processed) stats;
  }

  symbols_left-positive :
      (st : St)
      → IsReady F dsp fir sample_rate codec st
      → st.frame_parse_mode ≡ frame_found
      → 0 < symbols_left F dsp fir sample_rate codec st
  unfolding symbols_left
  symbols_left-positive st v reading =
      let (fits, many, few) = subst (λ m. InMode F dsp fir sample_rate codec m st) reading v.mode in
      omega (arith, few, ap (λ m. left_in F dsp fir sample_rate codec m st) reading)

  symbols_left-seeking :
      (st : St) → st.frame_parse_mode ≡ frame_seek → symbols_left F dsp fir sample_rate codec st ≡ 0
  unfolding symbols_left
  symbols_left-seeking st seeking = ap (λ m. left_in F dsp fir sample_rate codec m st) seeking

  abbrev Through : ℕ → ℕ → ℕ → List Complex → ℕ → Bool → St → Type 0
  Through m n timestamp samples k seen st =
      (out : Bool × St) × (rounds timestamp samples (m + n) k seen st
        ≡ rounds timestamp samples n (m + k) out.0 out.1)
      × IsFinished st out

  -- A round and those behind it.
  round_then :
      (m n timestamp : ℕ) (samples : List Complex) (k : ℕ) (seen : Bool) (st : St) (one : Bool × St)
      → mode_symbol F dsp fir sample_rate codec st.frame_parse_mode timestamp samples
          (4 * k)
          seen
          st
        ≡ some one
      → rounds timestamp samples (suc m + n) k seen st
        ≡ rounds timestamp samples (m + n) (k + 1) one.0 one.1
  unfolding detect_rounds
  round_then m n timestamp samples k seen st one e =
      let next : suc m + n ≡ suc (m + n) = omega arith in
      ap (λ j. rounds timestamp samples j k seen st) next
      ∙ bind-some
          (mode_symbol F dsp fir sample_rate codec st.frame_parse_mode timestamp samples (4 * k)
            seen st)
          (λ p. rounds timestamp samples (m + n) (k + 1) p.0 p.1) e

  rounds-Through :
      (m n timestamp : ℕ) (samples : List Complex) (k : ℕ) (seen : Bool) (st : St)
      → suc m ≡ symbols_left F dsp fir sample_rate codec st
      → IsReady F dsp fir sample_rate codec st
      → 4 * (suc m + k) ≤ length samples
      → Through (suc m) n timestamp samples k seen st
  rounds-Through zero n timestamp samples k seen st left v inside =
      let (one, e, ready, moved, same) =
        mode_symbol-IsReady F dsp fir sample_rate codec st.frame_parse_mode timestamp samples k seen
          st (omega arith) refl v in
      elim moved [
        | inl seeking ↦ absurd (omega (arith, left, symbols_left-seeking st seeking))
        | inr (inl (reading, fewer, stats, received)) ↦
            absurd (omega (arith, left, fewer, symbols_left-positive one.1 ready reading))
        | inr (inr (over, last, counted)) ↦
            let here : zero + n ≡ n = omega arith in
            let place : k + 1 ≡ 1 + k = omega arith in
            (
              one,
              round_then zero n timestamp samples k seen st one e
                  ∙ ap (λ j. rounds timestamp samples j (k + 1) one.0 one.1) here
                  ∙ ap (λ j. rounds timestamp samples n j one.0 one.1) place,
              record { mode = over; frame = counted },
            )
      ]
  rounds-Through (suc m) n timestamp samples k seen st left v inside =
      let (one, e, ready, moved, same) =
        mode_symbol-IsReady F dsp fir sample_rate codec st.frame_parse_mode timestamp samples k seen
          st (omega arith) refl v in
      elim moved [
        | inl seeking ↦ absurd (omega (arith, left, symbols_left-seeking st seeking))
        | inr (inl (reading, fewer, stats, received)) ↦
            let (out, rest, finished) =
              rounds-Through m n timestamp samples (k + 1) one.0 one.1 (omega (arith, left, fewer))
                ready (omega arith) in
            let place : suc m + (k + 1) ≡ suc (suc m) + k = omega arith in
            (
              out,
              round_then (suc m) n timestamp samples k seen st one e
                  ∙ rest
                  ∙ ap (λ j. rounds timestamp samples n j out.0 out.1) place,
              record {
                mode = finished.mode;
                frame = Processed-before st one.1 out.1 stats received finished.frame;
              },
            )
        | inr (inr (over, last, counted)) ↦ absurd (omega (arith, left, last))
      ]

  -- A frame that was begun is over after the symbols it has left: it is then complete,
  -- `process_frame` was run on it once, over the receiver as it was at the start, which is now the
  -- receiver that this left, `register_frame` has counted it once with the result, and the loop goes
  -- on from the next symbol seeking a preamble, whatever number `n` of rounds comes behind. All
  -- samples up to there must be in the buffer.
  pub detect_rounds_frame :
      (n timestamp : ℕ) (samples : List Complex) (k : ℕ) (seen : Bool) (st : St)
      → IsReady F dsp fir sample_rate codec st
      → 0 < symbols_left F dsp fir sample_rate codec st
      → 4 * (symbols_left F dsp fir sample_rate codec st + k) ≤ length samples
      → (out : Bool × St) × (rounds timestamp samples
            (symbols_left F dsp fir sample_rate codec st + n)
            k
            seen
            st
          ≡ rounds timestamp samples n
              (symbols_left F dsp fir sample_rate codec st + k)
              out.0
              out.1)
        × IsFinished st out
  detect_rounds_frame n timestamp samples k seen st v busy inside =
      let left = symbols_left F dsp fir sample_rate codec st in
      let some_left : suc (left - 1) ≡ left = omega (arith, busy) in
      subst (λ m. Through m n timestamp samples k seen st) some_left
        (rounds-Through (left - 1) n timestamp samples k seen st some_left v
          (omega (arith, inside, busy)))

-- ===== src/Receiver/Frames/Rounds.antt =====
-- The rounds of the loop of `detect_frames` of src/commons.cpp.
use openstint.Base.{
  Bool, List, arith, bind-some, inl, inr, length, refl, some, suc, zero, ℕ, ◌*◌, ◌+◌, ◌∙◌, ◌≡◌, ◌≤◌,
  ◌⊎◌,
}
use openstint.Float.{Float}
use openstint.Transponder.{Codec}
use openstint.Detector.{Complex}
use openstint.Reader.Liquid.{Dsp}
use openstint.Receiver.Frames.{
  FrameParseMode, frame_seek, frame_wait, frame_found, Station, wait_symbol, found_symbol,
  mode_symbol, detect_rounds,
}
use openstint.Receiver.Frames.Ready.{IsReady, Advances, seek_symbol-IsReady}
use openstint.Receiver.Frames.Symbols.{wait_symbol-Answer, found_symbol-Answer}

module _ (F : Float) (dsp : Dsp F) (fir : List F.R → List F.R → List F.R) (sample_rate : ℕ)
    (codec : Codec) where
  abbrev St : Type 0
  St = Station F dsp fir sample_rate codec

  -- One round: in a frame it advances by a symbol.
  pub mode_symbol-IsReady :
      (m : FrameParseMode) (timestamp : ℕ) (samples : List Complex) (k : ℕ) (seen : Bool) (st : St)
      → 4 * (k + 1) ≤ length samples
      → st.frame_parse_mode ≡ m
      → IsReady F dsp fir sample_rate codec st
      → (out : Bool × St) × (mode_symbol F dsp fir sample_rate codec m timestamp samples
            (4 * k)
            seen
            st
          ≡ some out)
        × IsReady F dsp fir sample_rate codec out.1
        × ((m ≡ frame_seek) ⊎ Advances F dsp fir sample_rate codec st out.1)
        × (out.1.timecode ≡ st.timecode)
  unfolding mode_symbol
  mode_symbol-IsReady frame_seek timestamp samples k seen st inside mode v =
      let (out, e, ready, same) =
        seek_symbol-IsReady F dsp fir sample_rate codec timestamp samples (4 * k) seen st
          (omega arith) mode v in
      (out, e, ready, inl refl, same)
  mode_symbol-IsReady frame_wait timestamp samples k seen st inside mode v =
      let (out, e, ready, advances, same) =
        wait_symbol-Answer F dsp fir sample_rate codec samples k st inside mode v in
      (
        (seen, out),
        bind-some (wait_symbol F dsp fir sample_rate codec samples (4 * k) st) (λ s. some (seen, s))
            e,
        ready,
        inr advances,
        same,
      )
  mode_symbol-IsReady frame_found timestamp samples k seen st inside mode v =
      let (out, e, ready, advances, same) =
        found_symbol-Answer F dsp fir sample_rate codec samples (4 * k) st (omega arith) mode v in
      (
        (seen, out),
        bind-some (found_symbol F dsp fir sample_rate codec samples (4 * k) st)
            (λ s. some (seen, s)) e,
        ready,
        inr advances,
        same,
      )

  pub detect_rounds-IsReady :
      (n timestamp : ℕ) (samples : List Complex) (k : ℕ) (seen : Bool) (st : St)
      → 4 * (n + k) ≤ length samples
      → IsReady F dsp fir sample_rate codec st
      → (out : Bool × St) × (detect_rounds F dsp fir sample_rate codec timestamp samples n k seen st
          ≡ some out)
        × IsReady F dsp fir sample_rate codec out.1
        × (out.1.timecode ≡ st.timecode)
  unfolding detect_rounds
  detect_rounds-IsReady zero timestamp samples k seen st inside v = ((seen, st), refl, v, refl)
  detect_rounds-IsReady (suc n) timestamp samples k seen st inside v =
      let (one, e, ready, moved, same) =
        mode_symbol-IsReady st.frame_parse_mode timestamp samples k seen st (omega arith) refl v in
      let (out, e', done, same') =
        detect_rounds-IsReady n timestamp samples (k + 1) one.0 one.1 (omega arith) ready in
      (
        out,
        bind-some
              (mode_symbol F dsp fir sample_rate codec st.frame_parse_mode timestamp samples (4 * k)
                seen st)
              (λ p. detect_rounds F dsp fir sample_rate codec timestamp samples n (k + 1) p.0 p.1) e
            ∙ e',
        done,
        same' ∙ same,
      )

-- ===== src/Receiver/Frames/Symbols.antt =====
-- The symbols of a frame in `detect_frames` of src/commons.cpp: the start at the end of the wait, and
-- each symbol after it up to the last, with which the frame is processed.
use openstint.Base.{
  Bool, Bool-cases, List, Option, ap, arith, bind-some, drop, inl, inr, length, length-drop, refl,
  some, subst, sym, true, ℕ, ◌*◌, ◌+◌, ◌-◌, ◌<◌, ◌>>=◌, ◌∙◌, ◌≡◌, ◌≤◌,
}
use openstint.Base.Int.{pos, ◌-ℤ◌}
use openstint.Float.{Float}
use openstint.Transponder.{Codec}
use openstint.Detector.{Complex}
use openstint.Detector.Lanes.{IsSound}
use openstint.Frame.{Frame}
use openstint.Reader.{reserve_buffer_size, is_frame_complete}
use openstint.Reader.Liquid.{Dsp}
use openstint.Reader.Training.{SymbolReader, train_preamble}
use openstint.Reader.Training.Answers.{train_preamble-IsTrained}
use openstint.Reader.Symbol.{read_symbol, read_preamble}
use openstint.Reader.Symbol.Count.{read_symbol-Grown, read_preamble-Grown}
use openstint.Statistics.{register_frame}
use openstint.Receiver.{Receiver, process_frame}
use openstint.Receiver.Answers.{process_frame-answers}
use openstint.Rc4.Trainer.Invariant.{IsSafe}
use openstint.Receiver.Safe.{process_frame-IsSafe}
use openstint.Receiver.Frames.{
  frame_seek, frame_wait, frame_found, finish_if_complete, finish_frame, found_symbol, is_zero,
  wait_symbol, Station, read_start,
}
use openstint.Receiver.Frames.Ready.{
  InMode, FitsProtocol, IsReady, Grown-FitsProtocol, IsTrained-FitsProtocol, left_in, symbols_left,
  Answer,
}

module _ (F : Float) (dsp : Dsp F) (fir : List F.R → List F.R → List F.R) (sample_rate : ℕ)
    (codec : Codec) where
  abbrev St : Type 0
  St = Station F dsp fir sample_rate codec

  -- The preamble read: 18 soft bits, and the rest of the frame to come.
  Started : St → Option St → Type 0
  Started st o =
      (out : St) × (o ≡ some out)
      × IsReady F dsp fir sample_rate codec out
      × (out.frame_parse_mode ≡ frame_found)
      × (symbols_left F dsp fir sample_rate codec out ≡ 2 + st.frame.payload_size)
      × (out.rx_stats ≡ st.rx_stats)
      × (out.receiver ≡ st.receiver)
      × (out.timecode ≡ st.timecode)

  read_start-Started :
      (samples : List Complex) (k end : ℕ) (st : St)
      → 4 * (k + 1) ≡ end
      → end ≤ length samples
      → IsSound F 4 st.frame_detector
      → length st.symbol_reader.reserve_buffer ≡ reserve_buffer_size
      → FitsProtocol F dsp fir sample_rate codec st.frame
      → length st.frame.softbits ≡ 0
      → IsSafe F st.receiver.trainer
      → Started st (read_start F dsp fir sample_rate codec samples end st)
  unfolding Started read_start symbols_left
  read_start-Started samples k end st place inside sound before fits empty safe =
      let dc = st.frame_detector.offset_hires in
      let (one, e, trained) =
        train_preamble-IsTrained F dsp dc samples end st.frame st.symbol_reader before inside in
      let full = ap length trained.reserve ∙ before in
      let (two, e', grown, kept) =
        read_preamble-Grown F dsp dc samples end k one.0 one.1 full place inside in
      let count : length two.0.softbits ≡ 18 =
        omega (arith, grown.count, ap length trained.softbits, empty) in
      let size : two.0.payload_size ≡ st.frame.payload_size = grown.payload ∙ trained.payload in
      let result = λ (p : Frame F × SymbolReader F dsp). record st {
        frame = p.0;
        symbol_reader = p.1;
        frame_parse_mode = frame_found;
      } in
      (
        result two,
        bind-some (train_preamble F dsp dc samples end st.frame st.symbol_reader)
              (λ p. read_preamble F dsp dc samples end p.0 p.1 >>= λ q. some (result q)) e
            ∙ bind-some (read_preamble F dsp dc samples end one.0 one.1) (λ q. some (result q)) e',
        record {
          sound = sound;
          reserve = ap length kept ∙ full;
          mode = (
            Grown-FitsProtocol F dsp fir sample_rate codec 18 one.0 two.0 grown (
                IsTrained-FitsProtocol F dsp fir sample_rate codec st.frame st.symbol_reader one
                  trained fits),
            omega (arith, count),
            omega (arith, count),
          );
          trainer = safe;
        },
        refl,
        omega (arith, count, size),
        refl,
        refl,
        refl,
      )

  pub wait_symbol-Answer :
      (samples : List Complex) (k : ℕ) (st : St)
      → 4 * (k + 1) ≤ length samples
      → st.frame_parse_mode ≡ frame_wait
      → IsReady F dsp fir sample_rate codec st
      → Answer F dsp fir sample_rate codec st
          (wait_symbol F dsp fir sample_rate codec samples (4 * k) st)
  unfolding Started wait_symbol symbols_left ◌-ℤ◌
  wait_symbol-Answer samples k st inside waiting v =
      let (pending, fits, empty) =
        subst (λ m. InMode F dsp fir sample_rate codec m st) waiting v.mode in
      let over : is_zero (st.pending_trail -ℤ pos 1) ≡ true =
        ap (λ z. is_zero (z -ℤ pos 1)) pending in
      let (out, e, ready, mode, left, stats, received, same) =
        read_start-Started samples k (4 * k + 4)
          (record st { pending_trail = st.pending_trail -ℤ pos 1 }) (omega arith)
          (omega (arith, inside)) v.sound v.reserve fits empty v.trainer in
      (
        out,
        rw over e,
        ready,
        inl (
          mode,
          omega (arith, left, ap (λ m. left_in F dsp fir sample_rate codec m st) waiting),
          stats,
          received,
        ),
        same,
      )

  -- A frame with its bits, at the end of a symbol: it goes on, or it is processed and counted.
  finish_if_complete-Answer :
      (before st : St)
      → IsSound F 4 st.frame_detector
      → length st.symbol_reader.reserve_buffer ≡ reserve_buffer_size
      → IsSafe F st.receiver.trainer
      → FitsProtocol F dsp fir sample_rate codec st.frame
      → st.frame_parse_mode ≡ frame_found
      → before.rx_stats ≡ st.rx_stats
      → before.timecode ≡ st.timecode
      → before.receiver ≡ st.receiver
      → 19 ≤ length st.frame.softbits
      → length st.frame.softbits ≤ 20 + st.frame.payload_size
      → symbols_left F dsp fir sample_rate codec before
        ≡ 21 + st.frame.payload_size - length st.frame.softbits
      → Answer F dsp fir sample_rate codec before
          (finish_if_complete F dsp fir sample_rate codec st)
  unfolding finish_if_complete finish_frame symbols_left is_frame_complete
  finish_if_complete-Answer before st sound full safe fits reading stats same received many few
        left =
      elim (Bool-cases (is_frame_complete F st.frame)) [
        | inl complete ↦
            let past : 20 + st.frame.payload_size ≡ length st.frame.softbits =
              ground (arith, complete, fits.preamble) in
            let (out, e) =
              process_frame-answers F fir sample_rate codec st.frame st.receiver fits.payload in
            let result = λ (p : Bool × Receiver F fir sample_rate codec). record st {
              frame_parse_mode = frame_seek;
              receiver = p.1;
              rx_stats = register_frame F p.0 st.rx_stats;
            } in
            (
              result out,
              rw complete (
                  bind-some (process_frame F fir sample_rate codec st.frame st.receiver)
                    (λ p. some (result p)) e),
              record {
                sound = sound;
                reserve = full;
                mode = tt;
                trainer =
                    process_frame-IsSafe F fir sample_rate codec st.frame st.receiver out e safe;
              },
              inr (
                refl,
                omega (arith, past),
                record {
                  processed = out.0;
                  complete = complete;
                  result = ap (process_frame F fir sample_rate codec st.frame) received ∙ e;
                  counted = ap (register_frame F out.0) (sym stats);
                },
              ),
              sym same,
            )
        | inr goes_on ↦
            let not_yet : length st.frame.softbits < 20 + st.frame.payload_size =
              ground (arith, goes_on, fits.preamble) in
            let here = ap (λ m. left_in F dsp fir sample_rate codec m st) reading in
            (
              st,
              rw goes_on refl,
              record {
                sound = sound;
                reserve = full;
                mode =
                    subst (λ m. InMode F dsp fir sample_rate codec m st) (sym reading)
                      (fits, omega (arith, many), omega (arith, not_yet));
                trainer = safe;
              },
              inl (reading, omega (arith, not_yet, left, here), sym stats, sym received),
              sym same,
            )
      ]

  pub found_symbol-Answer :
      (samples : List Complex) (idx : ℕ) (st : St)
      → idx + 4 ≤ length samples
      → st.frame_parse_mode ≡ frame_found
      → IsReady F dsp fir sample_rate codec st
      → Answer F dsp fir sample_rate codec st
          (found_symbol F dsp fir sample_rate codec samples idx st)
  unfolding found_symbol symbols_left
  found_symbol-Answer samples idx st inside reading v =
      let (fits, many, few) = subst (λ m. InMode F dsp fir sample_rate codec m st) reading v.mode in
      let dc = st.frame_detector.offset_hires in
      let (one, e, grown, kept) =
        read_symbol-Grown F dsp dc (drop idx samples) st.frame st.symbol_reader
          (omega (arith, length-drop idx samples)) in
      let next =
        λ (p : Frame F × SymbolReader F dsp). record st { frame = p.0; symbol_reader = p.1 } in
      let (out, e', ready, advances, same) =
        finish_if_complete-Answer st (next one) v.sound (ap length kept ∙ v.reserve) v.trainer
          (Grown-FitsProtocol F dsp fir sample_rate codec 1 st.frame one.0 grown fits) reading refl
          refl refl (omega (arith, grown.count, many))
          (omega (arith, grown.count, grown.payload, few))
          (omega (
            arith,
            grown.count,
            grown.payload,
            ap (λ m. left_in F dsp fir sample_rate codec m st) reading,
          )) in
      (
        out,
        bind-some (read_symbol F dsp dc (drop idx samples) st.frame st.symbol_reader)
              (λ p. finish_if_complete F dsp fir sample_rate codec (next p)) e
            ∙ e',
        ready,
        advances,
        same,
      )

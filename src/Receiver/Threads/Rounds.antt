-- ===== src/Receiver/Threads/Rounds.antt =====
-- The rounds of the callback's thread: none reads outside of its arrays, and each leaves the thread in
-- the rounds of its buffer.
use openstint.Base.{
  Bool-cases, List, Option, ap, arith, bind-eq-some, bind-some, drop, inl, inr, length, length-drop,
  refl, some, subst, suc, sym, zero, ℕ, ◌*◌, ◌+◌, ◌<◌, ◌∙◌, ◌≡◌, ◌≤◌,
}
use openstint.Float.{Float}
use openstint.Transponder.{Codec}
use openstint.Detector.Lanes.{IsSound}
use openstint.Frame.{Frame, bits}
use openstint.Reader.{reserve_buffer_size, is_frame_complete}
use openstint.Reader.Liquid.{Dsp}
use openstint.Reader.Training.{SymbolReader}
use openstint.Reader.Symbol.{read_symbol}
use openstint.Reader.Symbol.Count.{read_symbol-Grown}
use openstint.Rc4.Trainer.Invariant.{IsSafe}
use openstint.Receiver.Answers.{process_frame-answers}
use openstint.Receiver.Effects.{Plan, plan, carry_out}
use openstint.Receiver.Effects.Agree.{process_frame-plan}
use openstint.Receiver.Frames.{
  FrameParseMode, frame_seek, frame_wait, frame_found, Station, seek_symbol, wait_symbol,
  end_buffer,
}
use openstint.Receiver.Frames.Ready.{
  InMode, FitsProtocol, IsReady, Grown-FitsProtocol, seek_symbol-IsReady,
}
use openstint.Receiver.Frames.Symbols.{wait_symbol-Answer}
use openstint.Receiver.Frames.Sound.{end_buffer-Counted}
use openstint.Receiver.Threads.Callback.{
  Loop, Position, away, looping, handling, next_round, begin_frame, begin_if_complete, loop_round,
  loop_step,
}
use openstint.Receiver.Threads.Kept.{
  seek_symbol-receiver, wait_symbol-receiver, end_buffer-receiver,
}

-- The rounds that are left lie in the buffer, which is not a torn one.
pub record InLoop (l : Loop) : Type 0 where
  pub inside : 4 * (l.left + l.round) ≤ length l.samples
  pub enough : reserve_buffer_size ≤ length l.samples

module _ (F : Float) (dsp : Dsp F) (fir : List F.R → List F.R → List F.R) (sample_rate : ℕ)
    (codec : Codec) where
  abbrev S : Type 0
  S = Station F dsp fir sample_rate codec

  abbrev pub Ready : S → Type 0
  Ready = IsReady F dsp fir sample_rate codec

  abbrev pub Fits : Position F → Type 0
  Fits away = Unit
  Fits (looping l) = InLoop l
  Fits (handling l f processed es) = InLoop l

  -- A step that is made, with what it keeps; the trainer's state is the main thread's.
  abbrev pub Moves : S → Option (Position F × S) → Type 0
  Moves st o =
      (out : Position F × S) × (o ≡ some out)
      × Fits out.0
      × Ready out.1
      × (out.1.receiver.trainer.state ≡ st.receiver.trainer.state)

  begin_frame-Moves :
      (l : Loop) (st : S)
      → InLoop l
      → IsSound F 4 st.frame_detector
      → length st.symbol_reader.reserve_buffer ≡ reserve_buffer_size
      → IsSafe F st.receiver.trainer
      → FitsProtocol F dsp fir sample_rate codec st.frame
      → Moves st (begin_frame F dsp fir sample_rate codec l st)
  unfolding begin_frame
  begin_frame-Moves l st v sound full safe fits =
      let (answer, e) =
        process_frame-answers F fir sample_rate codec st.frame st.receiver fits.payload in
      let planned =
        plan F fir sample_rate codec st.frame st.receiver.blacklist st.receiver.registry in
      let (p, h, carried) =
        bind-eq-some planned
          (λ p. some (carry_out F fir sample_rate codec (bits F st.frame).1 st.receiver p))
          (sym (process_frame-plan F fir sample_rate codec st.frame st.receiver) ∙ e) in
      let next = λ (q : Plan). record st {
        frame_parse_mode = frame_seek;
        receiver = record st.receiver { blacklist = q.blacklist };
      } in
      (
        (handling l (bits F st.frame).1 p.processed p.effects, next p),
        bind-some planned (λ q. some (handling l (bits F st.frame).1 q.processed q.effects, next q))
            h,
        v,
        record { sound = sound; reserve = full; mode = tt; trainer = safe },
        refl,
      )

  -- A frame in which a symbol was read.
  begin_if_complete-Moves :
      (l : Loop) (st : S)
      → InLoop l
      → IsSound F 4 st.frame_detector
      → length st.symbol_reader.reserve_buffer ≡ reserve_buffer_size
      → IsSafe F st.receiver.trainer
      → FitsProtocol F dsp fir sample_rate codec st.frame
      → st.frame_parse_mode ≡ frame_found
      → 18 ≤ length st.frame.softbits
      → Moves st (begin_if_complete F dsp fir sample_rate codec l st)
  unfolding begin_if_complete is_frame_complete
  begin_if_complete-Moves l st v sound full safe fits reading many =
      elim (Bool-cases (is_frame_complete F st.frame)) [
        | inl complete ↦
            let (out, e, fit, ready, kept) = begin_frame-Moves l st v sound full safe fits in
            (out, rw complete e, fit, ready, kept)
        | inr goes_on ↦
            let not_yet : length st.frame.softbits < 20 + st.frame.payload_size =
              ground (arith, goes_on, fits.preamble) in
            (
              (looping l, st),
              rw goes_on refl,
              v,
              record {
                sound = sound;
                reserve = full;
                mode =
                    subst (λ m. InMode F dsp fir sample_rate codec m st) (sym reading)
                      (fits, many, not_yet);
                trainer = safe;
              },
              refl,
            )
      ]

  found_round-Moves :
      (left : ℕ) (l : Loop) (st : S)
      → InLoop (next_round l left l.frame_detected)
      → st.frame_parse_mode ≡ frame_found
      → Ready st
      → Moves st (loop_round F dsp fir sample_rate codec frame_found left l st)
  unfolding loop_round
  found_round-Moves left l st v reading ready =
      let (fits, many, few) =
        subst (λ m. InMode F dsp fir sample_rate codec m st) reading ready.mode in
      let dc = st.frame_detector.offset_hires in
      let here = drop (4 * l.round) l.samples in
      let (one, e, grown, kept) =
        read_symbol-Grown F dsp dc here st.frame st.symbol_reader
          (omega (arith, v.inside, length-drop (4 * l.round) l.samples)) in
      let next =
        λ (p : Frame F × SymbolReader F dsp). record st { frame = p.0; symbol_reader = p.1 } in
      let (out, e', fit, done, same) =
        begin_if_complete-Moves (next_round l left l.frame_detected) (next one) v ready.sound
          (ap length kept ∙ ready.reserve) ready.trainer
          (Grown-FitsProtocol F dsp fir sample_rate codec 1 st.frame one.0 grown fits) reading
          (omega (arith, grown.count, many)) in
      (
        out,
        bind-some (read_symbol F dsp dc here st.frame st.symbol_reader)
              (λ p.
                begin_if_complete F dsp fir sample_rate codec (next_round l left l.frame_detected)
                  (next p))
              e
            ∙ e',
        fit,
        done,
        same,
      )

  loop_round-Moves :
      (m : FrameParseMode) (left : ℕ) (l : Loop) (st : S)
      → InLoop (next_round l left l.frame_detected)
      → st.frame_parse_mode ≡ m
      → Ready st
      → Moves st (loop_round F dsp fir sample_rate codec m left l st)
  unfolding loop_round
  loop_round-Moves frame_seek left l st v mode ready =
      let seek = seek_symbol F dsp fir sample_rate codec l.timestamp l.samples (4 * l.round) in
      let (out, e, kept, same) =
        seek_symbol-IsReady F dsp fir sample_rate codec l.timestamp l.samples (4 * l.round)
          l.frame_detected st (omega (arith, v.inside)) mode ready in
      (
        (looping (next_round l left out.0), out.1),
        bind-some (seek l.frame_detected st) (λ p. some (looping (next_round l left p.0), p.1)) e,
        record { inside = v.inside; enough = v.enough },
        kept,
        ap (λ r. r.trainer.state)
            (seek_symbol-receiver F dsp fir sample_rate codec l.timestamp l.samples (4 * l.round)
              l.frame_detected st out e),
      )
  loop_round-Moves frame_wait left l st v mode ready =
      let (out, e, kept, advances, same) =
        wait_symbol-Answer F dsp fir sample_rate codec l.samples l.round st
          (omega (arith, v.inside)) mode ready in
      (
        (looping (next_round l left l.frame_detected), out),
        bind-some (wait_symbol F dsp fir sample_rate codec l.samples (4 * l.round) st)
            (λ s. some (looping (next_round l left l.frame_detected), s)) e,
        record { inside = v.inside; enough = v.enough },
        kept,
        ap (λ r. r.trainer.state)
            (wait_symbol-receiver F dsp fir sample_rate codec l.samples (4 * l.round) st out e),
      )
  loop_round-Moves frame_found left l st v mode ready = found_round-Moves left l st v mode ready

  pub loop_step-Moves :
      (left : ℕ) (l : Loop) (st : S)
      → l.left ≡ left
      → InLoop l
      → Ready st
      → Moves st (loop_step F dsp fir sample_rate codec left l st)
  unfolding loop_step
  loop_step-Moves zero l st e v ready =
      let (out, h, kept, counted) =
        end_buffer-Counted F dsp fir sample_rate codec l.samples l.frame_detected st v.enough
          ready in
      (
        (away, out),
        bind-some (end_buffer F dsp fir sample_rate codec l.samples l.frame_detected st)
            (λ s. some (away, s)) h,
        tt,
        kept,
        ap (λ r. r.trainer.state)
            (end_buffer-receiver F dsp fir sample_rate codec l.samples l.frame_detected st out h),
      )
  loop_step-Moves (suc left) l st e v ready =
      loop_round-Moves st.frame_parse_mode left l st
        (record { inside = omega (arith, v.inside, e); enough = v.enough }) refl ready

-- ===== src/Receiver/Threads/Buffer.antt =====
-- That the steps of the callback's thread, with no step of the other thread between them, are a call
-- of `detect_frames` of src/commons.cpp.
use openstint.Base.{
  Bool, Bool-cases, List, Option, [], ap, bind-eq-some, bind-some, drop, false, inl, inr, length,
  ltb, refl, some, subst, suc, sym, zero, ℕ, ◌%◌, ◌*◌, ◌+◌, ◌/◌, ◌^◌, ◌∙◌, ◌∷◌, ◌≡◌,
}
use openstint.Float.{Float}
use openstint.Transponder.{Codec}
use openstint.Detector.{Complex}
use openstint.Frame.{Frame, bits}
use openstint.Reader.{reserve_buffer_size, is_frame_complete}
use openstint.Reader.Liquid.{Dsp}
use openstint.Reader.Training.{SymbolReader}
use openstint.Reader.Symbol.{read_symbol}
use openstint.Statistics.{register_frame}
use openstint.Receiver.{Receiver, process_frame}
use openstint.Receiver.Effects.{Effect, Plan, plan, perform, perform_all, carry_out}
use openstint.Receiver.Effects.Agree.{process_frame-plan}
use openstint.Receiver.Frames.{
  FrameParseMode, frame_seek, frame_wait, frame_found, Station, seek_symbol, wait_symbol,
  found_symbol, finish_frame, finish_if_complete, mode_symbol, detect_rounds, end_buffer,
  detect_whole, detect_frames,
}
use openstint.Receiver.Threads.Callback.{
  Loop, Position, away, looping, handling, next_round, arrive, begin_frame, begin_if_complete,
  loop_round, loop_step, receive_step,
}

module _ (F : Float) (dsp : Dsp F) (fir : List F.R → List F.R → List F.R) (sample_rate : ℕ)
    (codec : Codec) where
  abbrev S : Type 0
  S = Station F dsp fir sample_rate codec

  -- The steps from a position up to the end of the callback.
  pub data Runs : Position F → S → S → Type 0 where
    stops : (st : S) → Runs away st st
    goes :
        {position : Position F} {st : S} {next : Position F × S} {end : S}
        → receive_step F dsp fir sample_rate codec position st ≡ some next
        → Runs next.0 next.1 end
        → Runs position st end

  handling-Runs :
      (l : Loop) (f : Frame F) (processed : Bool) (es : List Effect) (st end : S)
      → Runs
          (looping l)
          (record st {
            receiver = perform_all F fir sample_rate codec f es st.receiver;
            rx_stats = register_frame F processed st.rx_stats;
          })
          end
      → Runs (handling l f processed es) st end
  unfolding receive_step perform_all
  handling-Runs l f processed [] st end runs = goes refl runs
  handling-Runs l f processed (e ∷ es) st end runs = goes refl (
      handling-Runs l f processed es
        (record st { receiver = perform F fir sample_rate codec f e st.receiver }) end runs)

  -- What a round does to the station, up to the next round.
  Leads : Option (Position F × S) → Loop → S → Type 0
  Leads o l out =
      (end : S)
      → Runs (looping l) out end
      → (next : Position F × S) × (o ≡ some next) × Runs next.0 next.1 end

  begin_frame-Leads :
      (l : Loop) (st out : S)
      → finish_frame F dsp fir sample_rate codec st ≡ some out
      → Leads (begin_frame F dsp fir sample_rate codec l st) l out
  unfolding Leads begin_frame finish_frame carry_out
  begin_frame-Leads l st out e end runs =
      let (done, h, same) =
        bind-eq-some (process_frame F fir sample_rate codec st.frame st.receiver) _ e in
      let planned =
        plan F fir sample_rate codec st.frame st.receiver.blacklist st.receiver.registry in
      let f = (bits F st.frame).1 in
      let (p, h', carried) =
        bind-eq-some planned (λ p. some (carry_out F fir sample_rate codec f st.receiver p))
          (sym (process_frame-plan F fir sample_rate codec st.frame st.receiver) ∙ h) in
      let result : carry_out F fir sample_rate codec f st.receiver p ≡ done = cc in
      let counted = λ (d : Bool × Receiver F fir sample_rate codec). record st {
        frame_parse_mode = frame_seek;
        receiver = d.1;
        rx_stats = register_frame F d.0 st.rx_stats;
      } in
      let whole : counted done ≡ out = cc in
      let next = λ (q : Plan). record st {
        frame_parse_mode = frame_seek;
        receiver = record st.receiver { blacklist = q.blacklist };
      } in
      (
        (handling l f p.processed p.effects, next p),
        bind-some planned (λ q. some (handling l f q.processed q.effects, next q)) h',
        handling-Runs l f p.processed p.effects (next p) end
            (subst (λ s. Runs (looping l) s end) (sym (ap counted result ∙ whole)) runs),
      )

  begin_if_complete-Leads :
      (l : Loop) (st out : S)
      → finish_if_complete F dsp fir sample_rate codec st ≡ some out
      → Leads (begin_if_complete F dsp fir sample_rate codec l st) l out
  unfolding Leads begin_if_complete finish_if_complete
  begin_if_complete-Leads l st out e end runs = elim (Bool-cases (is_frame_complete F st.frame)) [
    | inl complete ↦
        let (next, h, rest) = begin_frame-Leads l st out (rw complete at e) end runs in
        (next, rw complete h, rest)
    | inr goes_on ↦
        let same : some st ≡ some out = rw goes_on at e in
        let result : st ≡ out = cc in
        ((looping l, st), rw goes_on refl, subst (λ s. Runs (looping l) s end) (sym result) runs)
  ]

  loop_round-Leads :
      (m : FrameParseMode) (left : ℕ) (l : Loop) (st : S) (out : Bool × S)
      → mode_symbol F dsp fir sample_rate codec m l.timestamp l.samples
          (4 * l.round)
          l.frame_detected
          st
        ≡ some out
      → Leads (loop_round F dsp fir sample_rate codec m left l st) (next_round l left out.0) out.1
  unfolding Leads mode_symbol loop_round found_symbol
  loop_round-Leads frame_seek left l st out e end runs = (
    (looping (next_round l left out.0), out.1),
    bind-some
        (seek_symbol F dsp fir sample_rate codec l.timestamp l.samples (4 * l.round)
          l.frame_detected st)
        (λ p. some (looping (next_round l left p.0), p.1)) e,
    runs,
  )
  loop_round-Leads frame_wait left l st out e end runs =
      let waited = wait_symbol F dsp fir sample_rate codec l.samples (4 * l.round) st in
      let (st', h, same) = bind-eq-some waited (λ s. some (l.frame_detected, s)) e in
      let result : (l.frame_detected, st') ≡ out = cc in
      (
        (looping (next_round l left l.frame_detected), st'),
        bind-some waited (λ s. some (looping (next_round l left l.frame_detected), s)) h,
        subst (λ (o : Bool × S). Runs (looping (next_round l left o.0)) o.1 end) (sym result) runs,
      )
  loop_round-Leads frame_found left l st out e end runs =
      let l' = next_round l left l.frame_detected in
      let found = found_symbol F dsp fir sample_rate codec l.samples (4 * l.round) st in
      let (st', h, same) = bind-eq-some found (λ s. some (l.frame_detected, s)) e in
      let result : (l.frame_detected, st') ≡ out = cc in
      let read =
        read_symbol F dsp st.frame_detector.offset_hires (drop (4 * l.round) l.samples) st.frame
          st.symbol_reader in
      let next =
        λ (p : Frame F × SymbolReader F dsp). record st { frame = p.0; symbol_reader = p.1 } in
      let (p, h', finished) =
        bind-eq-some read (λ p. finish_if_complete F dsp fir sample_rate codec (next p)) h in
      let (begun, h'', rest) = begin_if_complete-Leads l' (next p) st' finished end (
        subst (λ (o : Bool × S). Runs (looping (next_round l left o.0)) o.1 end) (sym result)
          runs) in
      (
        begun,
        ◌∙◌ {c = some begun}
            (bind-some read (λ q. begin_if_complete F dsp fir sample_rate codec l' (next q)) h')
            h'',
        rest,
      )

  -- The position at a round.
  abbrev at_round : ℕ → List Complex → ℕ → ℕ → Bool → Position F
  at_round timestamp samples n k seen = looping (record {
    timestamp = timestamp;
    samples = samples;
    left = n;
    round = k;
    frame_detected = seen;
  })

  rounds-Runs :
      (n timestamp : ℕ) (samples : List Complex) (k : ℕ) (seen : Bool) (st : S) (out : Bool × S)
      (end : S)
      → detect_rounds F dsp fir sample_rate codec timestamp samples n k seen st ≡ some out
      → end_buffer F dsp fir sample_rate codec samples out.0 out.1 ≡ some end
      → Runs (at_round timestamp samples n k seen) st end
  unfolding detect_rounds receive_step loop_step Leads
  rounds-Runs zero timestamp samples k seen st out end e h =
      let result : (seen, st) ≡ out = cc in
      let ended : end_buffer F dsp fir sample_rate codec samples seen st ≡ some end =
        subst (λ (o : Bool × S). end_buffer F dsp fir sample_rate codec samples o.0 o.1 ≡ some end)
          (sym result) h in
      goes
        (bind-some (end_buffer F dsp fir sample_rate codec samples seen st) (λ s. some (away, s))
          ended)
        (stops end)
  rounds-Runs (suc n) timestamp samples k seen st out end e h =
      let l : Loop = record {
        timestamp = timestamp;
        samples = samples;
        left = suc n;
        round = k;
        frame_detected = seen;
      } in
      let (one, e', rest) =
        bind-eq-some
          (mode_symbol F dsp fir sample_rate codec st.frame_parse_mode timestamp samples (4 * k)
            seen st)
          (λ p. detect_rounds F dsp fir sample_rate codec timestamp samples n (k + 1) p.0 p.1) e in
      let (next, made, runs) =
        loop_round-Leads st.frame_parse_mode n l st one e' end
          (rounds-Runs n timestamp samples (k + 1) one.0 one.1 out end rest h) in
      goes made runs

  -- A call of `detect_frames` that comes to a result is a run of the callback's thread with no step
  -- of the other thread in it: the frames are decoded, looked up, detected, trained and counted to
  -- the same end.
  pub detect_frames-Runs :
      (timestamp : ℕ) (samples : List Complex) (st end : S)
      → detect_frames F dsp fir sample_rate codec timestamp samples st ≡ some end
      → Runs
          (arrive F dsp fir sample_rate codec timestamp samples st).0
          (arrive F dsp fir sample_rate codec timestamp samples st).1
          end
  unfolding detect_frames detect_whole arrive
  detect_frames-Runs timestamp samples st end e =
      elim (Bool-cases (ltb (length samples) reserve_buffer_size)) [
        | inl small ↦
            let torn = record st { timecode = (st.timecode + length samples) % 2 ^ 64 } in
            let same : some torn ≡ some end = rw small at e in
            let result : torn ≡ end = cc in
            rw small (subst (λ s. Runs away torn s) result (stops torn))
        | inr large ↦
            let (out, h, ended) =
              bind-eq-some
                (detect_rounds F dsp fir sample_rate codec timestamp samples (length samples / 4) 0
                  false st)
                (λ p. end_buffer F dsp fir sample_rate codec samples p.0 p.1) (rw large at e) in
            rw large (rounds-Runs (length samples / 4) timestamp samples 0 false st out end h ended)
      ]

-- ===== src/Receiver/Threads/Kept.antt =====
-- What the callback's thread of a device program leaves alone outside of `process_frame`.
use openstint.Base.{
  Bool, Bool-cases, List, Option, ap, bind-eq-some, drop, false, inl, inr, length, none, refl, some,
  sym, true, ℕ, ◌%◌, ◌+◌, ◌^◌, ◌∙◌, ◌≡◌,
}
use openstint.Base.Int.{pos, ◌-ℤ◌}
use openstint.Float.{Float}
use openstint.Transponder.{Codec, TransponderProtocol}
use openstint.Detector.{Complex, process_baseband}
use openstint.Reader.{update_reserve_buffer}
use openstint.Reader.Liquid.{Dsp}
use openstint.Reader.Training.{train_preamble}
use openstint.Reader.Symbol.{read_preamble}
use openstint.Receiver.Frames.{
  frame_found, Station, seek_symbol, on_baseband, on_detected, read_start, wait_symbol,
  update_counters, end_buffer, is_zero,
}

module _ (F : Float) (dsp : Dsp F) (fir : List F.R → List F.R → List F.R) (sample_rate : ℕ)
    (codec : Codec) where
  abbrev S : Type 0
  S = Station F dsp fir sample_rate codec

  on_baseband-receiver :
      (timestamp idx : ℕ) (found : Option (TransponderProtocol × F.R)) (seen : Bool) (st : S)
      → (on_baseband F dsp fir sample_rate codec timestamp idx found seen st).1.receiver
        ≡ st.receiver
  unfolding on_baseband on_detected
  on_baseband-receiver timestamp idx none seen st = refl
  on_baseband-receiver timestamp idx (some detected) seen st = refl

  -- Seeking, waiting and the end of a buffer leave alone what is behind the frames.
  pub seek_symbol-receiver :
      (timestamp : ℕ) (samples : List Complex) (idx : ℕ) (seen : Bool) (st : S) (out : Bool × S)
      → seek_symbol F dsp fir sample_rate codec timestamp samples idx seen st ≡ some out
      → out.1.receiver ≡ st.receiver
  unfolding seek_symbol
  seek_symbol-receiver timestamp samples idx seen st out e =
      let (p, h, same) =
        bind-eq-some (process_baseband F (drop idx samples) st.frame_detector) _ e in
      let next = record st { frame_detector = p.1 } in
      let result : on_baseband F dsp fir sample_rate codec timestamp idx p.0 seen next ≡ out = cc in
      ap (λ o. o.1.receiver) (sym result) ∙ on_baseband-receiver timestamp idx p.0 seen next

  read_start-receiver :
      (samples : List Complex) (end : ℕ) (st out : S)
      → read_start F dsp fir sample_rate codec samples end st ≡ some out
      → out.receiver ≡ st.receiver
  unfolding read_start
  read_start-receiver samples end st out e =
      let dc = st.frame_detector.offset_hires in
      let (p, h, rest) =
        bind-eq-some (train_preamble F dsp dc samples end st.frame st.symbol_reader) _ e in
      let (q, h', same) = bind-eq-some (read_preamble F dsp dc samples end p.0 p.1) _ rest in
      let result : record st { frame = q.0; symbol_reader = q.1; frame_parse_mode = frame_found }
          ≡ out =
        cc in
      ap (λ o. o.receiver) (sym result)

  pub wait_symbol-receiver :
      (samples : List Complex) (idx : ℕ) (st out : S)
      → wait_symbol F dsp fir sample_rate codec samples idx st ≡ some out
      → out.receiver ≡ st.receiver
  unfolding wait_symbol
  wait_symbol-receiver samples idx st out e =
      let waiting = record st { pending_trail = st.pending_trail -ℤ pos 1 } in
      elim (Bool-cases (is_zero (st.pending_trail -ℤ pos 1))) [
        | inl over ↦ read_start-receiver samples (idx + 4) waiting out (rw over at e)
        | inr not_yet ↦
            let same : some waiting ≡ some out = rw not_yet at e in
            let result : waiting ≡ out = cc in ap (λ o. o.receiver) (sym result)
      ]

  update_counters-receiver :
      (seen : Bool) (st : S)
      → (update_counters F dsp fir sample_rate codec seen st).receiver ≡ st.receiver
  unfolding update_counters
  update_counters-receiver true st = refl
  update_counters-receiver false st = refl

  pub end_buffer-receiver :
      (samples : List Complex) (seen : Bool) (st out : S)
      → end_buffer F dsp fir sample_rate codec samples seen st ≡ some out
      → out.receiver ≡ st.receiver
  unfolding end_buffer
  end_buffer-receiver samples seen st out e =
      let (reserve, h, same) = bind-eq-some (update_reserve_buffer samples (length samples)) _ e in
      let next = record st {
        timecode = (st.timecode + length samples) % 2 ^ 64;
        symbol_reader = record st.symbol_reader { reserve_buffer = reserve };
      } in
      let result : update_counters F dsp fir sample_rate codec seen next ≡ out = cc in
      ap (λ o. o.receiver) (sym result) ∙ update_counters-receiver seen next

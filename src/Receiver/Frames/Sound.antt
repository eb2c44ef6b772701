-- ===== src/Receiver/Frames/Sound.antt =====
-- What `detect_frames` of src/commons.cpp keeps over any sequence of buffers, and that none of them
-- makes it read outside of its arrays.
use openstint.Base.{
  Bool, Bool-cases, List, Option, [], ap, arith, bind-some, drop, false, inl, inr, length,
  length-drop, length-take, ltb, refl, some, take, true, ℕ, ◌%◌, ◌+◌, ◌-◌, ◌/◌, ◌^◌, ◌∙◌, ◌∷◌, ◌≡◌,
  ◌≤◌,
}
use openstint.Float.{Float}
use openstint.Transponder.{Codec}
use openstint.Detector.{Complex, update_statistics, reset_statistics_counters}
use openstint.Detector.Lanes.{
  new_frame_detector-IsSound, update_statistics-IsSound, reset_statistics_counters-IsSound,
}
use openstint.Frame.{Frame}
use openstint.Reader.{reserve_buffer_size, update_reserve_buffer}
use openstint.Reader.Liquid.{Dsp}
use openstint.Statistics.{save_channel_characteristics}
use openstint.Receiver.Frames.{
  Station, detect_rounds, update_counters, end_buffer, detect_whole, detect_frames, new_station,
}
use openstint.Receiver.Frames.Ready.{IsReady, InMode-kept}
use openstint.Receiver.Frames.Rounds.{detect_rounds-IsReady}

module _ (F : Float) (dsp : Dsp F) (fir : List F.R → List F.R → List F.R) (sample_rate : ℕ)
    (codec : Codec) where
  abbrev St : Type 0
  St = Station F dsp fir sample_rate codec

  update_counters-IsReady :
      (seen : Bool) (st : St)
      → IsReady F dsp fir sample_rate codec st
      → IsReady F dsp fir sample_rate codec (update_counters F dsp fir sample_rate codec seen st)
  unfolding update_counters
  update_counters-IsReady true st v = record {
    sound = reset_statistics_counters-IsSound F st.frame_detector v.sound;
    reserve = v.reserve;
    mode =
        InMode-kept F dsp fir sample_rate codec st.frame_parse_mode st
          (reset_statistics_counters F st.frame_detector) st.symbol_reader st.receiver st.rx_stats
          st.timecode v.mode;
    trainer = v.trainer;
  }
  update_counters-IsReady false st v = record {
    sound = update_statistics-IsSound F st.frame_detector v.sound;
    reserve = v.reserve;
    mode =
        InMode-kept F dsp fir sample_rate codec st.frame_parse_mode st
          (update_statistics F st.frame_detector) st.symbol_reader st.receiver
          (save_channel_characteristics F (update_statistics F st.frame_detector).offset_hires
            (update_statistics F st.frame_detector).variance st.rx_stats)
          st.timecode v.mode;
    trainer = v.trainer;
  }

  update_reserve_buffer-full :
      (samples : List Complex)
      → reserve_buffer_size ≤ length samples
      → (kept : List Complex) × (update_reserve_buffer samples (length samples) ≡ some kept)
        × (length kept ≡ reserve_buffer_size)
  unfolding update_reserve_buffer
  update_reserve_buffer-full samples enough =
      let fits : ltb (length samples) reserve_buffer_size ≡ false = ground arith in
      let whole : ltb (length samples) (length samples) ≡ false = ground arith in
      (
        take reserve_buffer_size (drop (length samples - reserve_buffer_size) samples),
        rw (fits, whole) refl,
        omega (
          arith,
          length-drop (length samples - reserve_buffer_size) samples,
          length-take reserve_buffer_size (drop (length samples - reserve_buffer_size) samples),
        ),
      )

  update_counters-timecode :
      (seen : Bool) (st : St)
      → (update_counters F dsp fir sample_rate codec seen st).timecode ≡ st.timecode
  unfolding update_counters
  update_counters-timecode true st = refl
  update_counters-timecode false st = refl

  -- A buffer leaves the state ready, with its samples counted.
  abbrev pub Counted : ℕ → St → Option St → Type 0
  Counted n st o =
      (out : St) × (o ≡ some out)
      × IsReady F dsp fir sample_rate codec out
      × (out.timecode ≡ (st.timecode + n) % 2 ^ 64)

  pub end_buffer-Counted :
      (samples : List Complex) (seen : Bool) (st : St)
      → reserve_buffer_size ≤ length samples
      → IsReady F dsp fir sample_rate codec st
      → Counted (length samples) st (end_buffer F dsp fir sample_rate codec samples seen st)
  unfolding end_buffer
  end_buffer-Counted samples seen st enough v =
      let (kept, e, full) = update_reserve_buffer-full samples enough in
      let next = λ (reserve : List Complex). record st {
        timecode = (st.timecode + length samples) % 2 ^ 64;
        symbol_reader = record st.symbol_reader { reserve_buffer = reserve };
      } in
      let ready : IsReady F dsp fir sample_rate codec (next kept) = record {
        sound = v.sound;
        reserve = full;
        mode =
            InMode-kept F dsp fir sample_rate codec st.frame_parse_mode st st.frame_detector
              (next kept).symbol_reader st.receiver st.rx_stats (next kept).timecode v.mode;
        trainer = v.trainer;
      } in
      (
        update_counters F dsp fir sample_rate codec seen (next kept),
        bind-some (update_reserve_buffer samples (length samples))
            (λ reserve. some (update_counters F dsp fir sample_rate codec seen (next reserve))) e,
        update_counters-IsReady seen (next kept) ready,
        update_counters-timecode seen (next kept),
      )

  detect_whole-Counted :
      (timestamp : ℕ) (samples : List Complex) (st : St)
      → reserve_buffer_size ≤ length samples
      → IsReady F dsp fir sample_rate codec st
      → Counted (length samples) st (detect_whole F dsp fir sample_rate codec timestamp samples st)
  unfolding detect_whole
  detect_whole-Counted timestamp samples st enough v =
      let (one, e, ready, same) =
        detect_rounds-IsReady F dsp fir sample_rate codec (length samples / 4) timestamp samples 0
          false st (omega arith) v in
      let (out, e', done, counted) = end_buffer-Counted samples one.0 one.1 enough ready in
      (
        out,
        bind-some
              (detect_rounds F dsp fir sample_rate codec timestamp samples (length samples / 4) 0
                false st)
              (λ p. end_buffer F dsp fir sample_rate codec samples p.0 p.1) e
            ∙ e',
        done,
        counted ∙ ap (λ t. (t + length samples) % 2 ^ 64) same,
      )

  pub detect_frames-Counted :
      (timestamp : ℕ) (samples : List Complex) (st : St)
      → IsReady F dsp fir sample_rate codec st
      → Counted (length samples) st (detect_frames F dsp fir sample_rate codec timestamp samples st)
  unfolding detect_frames
  detect_frames-Counted timestamp samples st v =
      elim (Bool-cases (ltb (length samples) reserve_buffer_size)) [
        | inl small ↦ (
          record st { timecode = (st.timecode + length samples) % 2 ^ 64 },
          rw small refl,
          record {
            sound = v.sound;
            reserve = v.reserve;
            mode =
                InMode-kept F dsp fir sample_rate codec st.frame_parse_mode st st.frame_detector
                  st.symbol_reader st.receiver st.rx_stats ((st.timecode + length samples) % 2 ^ 64)
                  v.mode;
            trainer = v.trainer;
          },
          refl,
        )
        | inr large ↦
            let (out, e, ready, counted) =
              detect_whole-Counted timestamp samples st (ground (arith, large)) v in
            (out, rw large e, ready, counted)
      ]

  -- All the samples of some buffers.
  unfoldable pub total : List (ℕ × List Complex) → ℕ
  total [] = 0
  total (buffer ∷ buffers) = length buffer.1 + total buffers

  pub new_station-IsReady :
      (f : Frame F)
      → IsReady F dsp fir sample_rate codec (new_station F dsp fir sample_rate codec f)
  new_station-IsReady f = record {
    sound = new_frame_detector-IsSound F;
    reserve = refl;
    mode = tt;
    trainer = record { bounded = omega arith; filled = inl refl };
  }

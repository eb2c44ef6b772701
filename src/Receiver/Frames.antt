-- ===== src/Receiver/Frames.antt =====
-- `detect_frames` of src/commons.cpp: the loop over the symbols of a buffer, which seeks a preamble,
-- waits for the samples behind it and reads the frame's symbols until it is complete.
pub mod Ready
pub mod Symbols
pub mod Rounds
pub mod Sound
pub mod Progress
use openstint.Base.{
  Bool, List, Option, [], drop, false, if◌then◌else◌, length, ltb, none, some, suc, true, zero, ℕ,
  ◌%◌, ◌*◌, ◌+◌, ◌/◌, ◌==◌, ◌>>=◌, ◌^◌, ◌∷◌,
}
use openstint.Base.Int.{ℤ, pos, negsuc, ◌-ℤ◌}
use openstint.Float.{Float}
use openstint.Transponder.{Codec, TransponderProtocol}
use openstint.Detector.{
  Complex, FrameDetector, new_frame_detector, process_baseband, reset_statistics_counters,
  update_statistics,
}
use openstint.Frame.{Frame, new_frame}
use openstint.Reader.{reserve_buffer_size, update_reserve_buffer, is_frame_complete}
use openstint.Reader.Liquid.{Dsp}
use openstint.Reader.Training.{SymbolReader, samples_per_symbol, new_symbol_reader, train_preamble}
use openstint.Reader.Symbol.{read_symbol, read_preamble}
use openstint.Statistics.{
  RxStatistics, new_statistics, register_frame, save_channel_characteristics,
}
use openstint.Receiver.{Receiver, new_receiver, process_frame}

pub data FrameParseMode : Type 0 where
  frame_seek : FrameParseMode
  frame_wait : FrameParseMode
  frame_found : FrameParseMode

-- `--pending_trail == 0`, over the decremented value.
abbrev pub is_zero : ℤ → Bool
is_zero (pos n) = n == 0
is_zero (negsuc n) = false

module _ (F : Float) (dsp : Dsp F) (fir : List F.R → List F.R → List F.R) (sample_rate : ℕ)
    (codec : Codec) where
  -- The static objects of the file that `detect_frames` works on.
  pub record Station : Type 0 where
    pub frame_parse_mode : FrameParseMode
    pub pending_trail : ℤ
    pub frame_detector : FrameDetector F
    pub symbol_reader : SymbolReader F dsp
    pub frame : Frame F
    pub receiver : Receiver F fir sample_rate codec
    pub rx_stats : RxStatistics F
    pub timecode : ℕ

  -- What the mode is changed to once a preamble was detected at the index `idx`.
  unfoldable pub on_detected : ℕ → ℕ → TransponderProtocol × F.R → Station → Station
  on_detected timestamp idx detected st = record st {
    frame_parse_mode = frame_wait;
    frame =
        new_frame F detected.0 detected.1 ((timestamp + idx * 1000000 / sample_rate) % 2 ^ 64)
          ((st.timecode + idx) % 2 ^ 64);
    pending_trail = pos 1;
  }

  -- The result of `process_baseband`, with the flag `frame_detected` of the buffer.
  unfoldable pub on_baseband :
      ℕ → ℕ → Option (TransponderProtocol × F.R) → Bool → Station → Bool × Station
  on_baseband timestamp idx none seen st = (seen, st)
  on_baseband timestamp idx (some detected) seen st = (true, on_detected timestamp idx detected st)

  unfoldable pub seek_symbol : ℕ → List Complex → ℕ → Bool → Station → Option (Bool × Station)
  seek_symbol timestamp samples idx seen st = do
    (detected, detector) ← process_baseband F (drop idx samples) st.frame_detector
    some (on_baseband timestamp idx detected seen (record st { frame_detector = detector }))

  -- The training and the reading of the preamble, with the window's end `end`.
  unfoldable pub read_start : List Complex → ℕ → Station → Option Station
  read_start samples end st = do
    (f, reader) ←
        train_preamble F dsp st.frame_detector.offset_hires samples end st.frame st.symbol_reader
    (g, reader') ← read_preamble F dsp st.frame_detector.offset_hires samples end f reader
    some (record st { frame = g; symbol_reader = reader'; frame_parse_mode = frame_found })

  unfoldable pub wait_symbol : List Complex → ℕ → Station → Option Station
  wait_symbol samples idx st =
      let waiting = record st { pending_trail = st.pending_trail -ℤ pos 1 } in
      let start = read_start samples (idx + samples_per_symbol) waiting in
      if is_zero waiting.pending_trail then start else some waiting

  -- A complete frame: `process_frame` and `register_frame`.
  unfoldable pub finish_frame : Station → Option Station
  finish_frame st = do
    (processed, r) ← process_frame F fir sample_rate codec st.frame st.receiver
    some (record st {
      frame_parse_mode = frame_seek;
      receiver = r;
      rx_stats = register_frame F processed st.rx_stats;
    })

  unfoldable pub finish_if_complete : Station → Option Station
  finish_if_complete st =
      let finished = finish_frame st in if is_frame_complete F st.frame then finished else some st

  unfoldable pub found_symbol : List Complex → ℕ → Station → Option Station
  found_symbol samples idx st = do
    (f, reader) ←
        read_symbol F dsp st.frame_detector.offset_hires (drop idx samples) st.frame
          st.symbol_reader
    finish_if_complete (record st { frame = f; symbol_reader = reader })

  -- One round of the loop; `none` is a read outside the samples.
  unfoldable pub mode_symbol :
      FrameParseMode → ℕ → List Complex → ℕ → Bool → Station → Option (Bool × Station)
  mode_symbol frame_seek timestamp samples idx seen st = seek_symbol timestamp samples idx seen st
  mode_symbol frame_wait timestamp samples idx seen st = do
    st' ← wait_symbol samples idx st
    some (seen, st')
  mode_symbol frame_found timestamp samples idx seen st = do
    st' ← found_symbol samples idx st
    some (seen, st')

  -- The loop over `idx` in steps of four: `n` rounds from round `k` on.
  unfoldable pub detect_rounds : ℕ → List Complex → ℕ → ℕ → Bool → Station → Option (Bool × Station)
  detect_rounds timestamp samples zero k seen st = some (seen, st)
  detect_rounds timestamp samples (suc n) k seen st = do
    (seen', st') ← mode_symbol st.frame_parse_mode timestamp samples (4 * k) seen st
    detect_rounds timestamp samples n (k + 1) seen' st'

  -- The counters for the noise and the offset at the end of a buffer.
  unfoldable pub update_counters : Bool → Station → Station
  update_counters seen st =
      let updated = update_statistics F st.frame_detector in
      if seen
      then record st { frame_detector = reset_statistics_counters F st.frame_detector }
      else record st {
        frame_detector = updated;
        rx_stats = save_channel_characteristics F updated.offset_hires updated.variance st.rx_stats;
      }

  -- What follows the loop.
  unfoldable pub end_buffer : List Complex → Bool → Station → Option Station
  end_buffer samples seen st = do
    reserve ← update_reserve_buffer samples (length samples)
    some (
        update_counters seen (record st {
          timecode = (st.timecode + length samples) % 2 ^ 64;
          symbol_reader = record st.symbol_reader { reserve_buffer = reserve };
        }))

  -- A buffer that can hold a preamble.
  unfoldable pub detect_whole : ℕ → List Complex → Station → Option Station
  detect_whole timestamp samples st = do
    (seen, st') ← detect_rounds timestamp samples (length samples / 4) 0 false st
    end_buffer samples seen st'

  -- A buffer with all its samples, and the time of its arrival. The indices are those of the source,
  -- a `uint32_t` and an `int`, if there are fewer than 2^31 samples.
  unfoldable pub detect_frames : ℕ → List Complex → Station → Option Station
  detect_frames timestamp samples st =
      let detected = detect_whole timestamp samples st in
      if ltb (length samples) reserve_buffer_size
      then some (record st { timecode = (st.timecode + length samples) % 2 ^ 64 })
      else detected

  -- The buffers in the order of their arrival, each with its time.
  unfoldable pub detect_all : List (ℕ × List Complex) → Station → Option Station
  detect_all [] st = some st
  detect_all (buffer ∷ buffers) st = do
    st' ← detect_frames buffer.0 buffer.1 st
    detect_all buffers st'

  -- The static objects at the start; what the default constructor leaves in the frame is not read.
  abbrev pub new_station : Frame F → Station
  new_station f = record {
    frame_parse_mode = frame_seek;
    pending_trail = pos 0;
    frame_detector = new_frame_detector F samples_per_symbol;
    symbol_reader = new_symbol_reader F dsp;
    frame = f;
    receiver = new_receiver F fir sample_rate codec;
    rx_stats = new_statistics F;
    timecode = 0;
  }

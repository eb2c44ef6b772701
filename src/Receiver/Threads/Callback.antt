-- ===== src/Receiver/Threads/Callback.antt =====
-- The steps of the callback's thread of a device program, in `detect_frames` and `process_frame` of
-- src/commons.cpp.
use openstint.Base.{
  Bool, List, Option, [], drop, false, if◌then◌else◌, length, ltb, some, suc, zero, ℕ, ◌%◌, ◌*◌,
  ◌+◌, ◌/◌, ◌>>=◌, ◌^◌, ◌∷◌,
}
use openstint.Float.{Float}
use openstint.Transponder.{Codec}
use openstint.Detector.{Complex}
use openstint.Frame.{Frame, bits}
use openstint.Reader.{reserve_buffer_size, is_frame_complete}
use openstint.Reader.Liquid.{Dsp}
use openstint.Reader.Symbol.{read_symbol}
use openstint.Statistics.{register_frame}
use openstint.Receiver.Effects.{Effect, plan, perform}
use openstint.Receiver.Frames.{
  FrameParseMode, frame_seek, frame_wait, frame_found, Station, seek_symbol, wait_symbol,
  end_buffer,
}

-- Which buffer the callback's thread is in, at which round, and how many are left behind it.
pub record Loop : Type 0 where
  pub timestamp : ℕ
  pub samples : List Complex
  pub left : ℕ
  pub round : ℕ
  pub frame_detected : Bool

module _ (F : Float) where
  -- Where the callback's thread is: between two buffers, in the loop, or in `process_frame` with a
  -- frame, the result and the calls that are left.
  pub data Position : Type 0 where
    away : Position
    looping : Loop → Position
    handling : Loop → Frame F → Bool → List Effect → Position

abbrev pub next_round : Loop → ℕ → Bool → Loop
next_round l left seen = record l { left = left; round = l.round + 1; frame_detected = seen }

module _ (F : Float) (dsp : Dsp F) (fir : List F.R → List F.R → List F.R) (sample_rate : ℕ)
    (codec : Codec) where
  abbrev pub St : Type 0
  St = Station F dsp fir sample_rate codec

  -- The call of the callback.
  unfoldable pub arrive : ℕ → List Complex → St → Position F × St
  arrive timestamp samples st =
      if ltb (length samples) reserve_buffer_size
      then (away, record st { timecode = (st.timecode + length samples) % 2 ^ 64 })
      else (
        looping (record {
          timestamp = timestamp;
          samples = samples;
          left = length samples / 4;
          round = 0;
          frame_detected = false;
        }),
        st,
      )

  -- The frame is complete: up to the first call of `process_frame` that changes what is shared.
  unfoldable pub begin_frame : Loop → St → Option (Position F × St)
  begin_frame l st = do
    p ← plan F fir sample_rate codec st.frame st.receiver.blacklist st.receiver.registry
    some (
      handling l (bits F st.frame).1 p.processed p.effects,
      record st {
        frame_parse_mode = frame_seek;
        receiver = record st.receiver { blacklist = p.blacklist };
      },
    )

  unfoldable pub begin_if_complete : Loop → St → Option (Position F × St)
  begin_if_complete l st =
      let begun = begin_frame l st in
      if is_frame_complete F st.frame then begun else some (looping l, st)

  -- A round of the loop; `left` rounds are left behind it.
  unfoldable pub loop_round : FrameParseMode → ℕ → Loop → St → Option (Position F × St)
  loop_round frame_seek left l st = do
    (seen, st') ←
        seek_symbol F dsp fir sample_rate codec l.timestamp l.samples (4 * l.round) l.frame_detected
          st
    some (looping (next_round l left seen), st')
  loop_round frame_wait left l st = do
    st' ← wait_symbol F dsp fir sample_rate codec l.samples (4 * l.round) st
    some (looping (next_round l left l.frame_detected), st')
  loop_round frame_found left l st = do
    (f, reader) ←
        read_symbol F dsp st.frame_detector.offset_hires (drop (4 * l.round) l.samples) st.frame
          st.symbol_reader
    begin_if_complete (next_round l left l.frame_detected)
        (record st { frame = f; symbol_reader = reader })

  unfoldable pub loop_step : ℕ → Loop → St → Option (Position F × St)
  loop_step zero l st = do
    st' ← end_buffer F dsp fir sample_rate codec l.samples l.frame_detected st
    some (away, st')
  loop_step (suc left) l st = loop_round st.frame_parse_mode left l st

  -- A step of the callback's thread; `none` is a read outside of an array.
  unfoldable pub receive_step : Position F → St → Option (Position F × St)
  receive_step away st = some (away, st)
  receive_step (looping l) st = loop_step l.left l st
  receive_step (handling l f processed []) st =
      some (looping l, record st { rx_stats = register_frame F processed st.rx_stats })
  receive_step (handling l f processed (e ∷ es)) st = some (
    handling l f processed es,
    record st { receiver = perform F fir sample_rate codec f e st.receiver },
  )

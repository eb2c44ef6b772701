-- ===== src/Tests/Buffers.antt =====
-- Tests of `detect_frames`, of the preambles that reach over two buffers, and of the whole decoder.
use openstint.Base.{
  Bool, List, [], arith, drop, false, inl, refl, replicate, take, ℕ, ◌++◌, ◌∷◌, ◌≡◌,
}
use openstint.Base.Int.{ℤ, pos}
use openstint.Transponder.{rc3}
use openstint.Detector.{Complex, origin}
use openstint.Detector.Lanes.{new_frame_detector-IsSound}
use openstint.Frame.{new_frame}
use openstint.Reader.Liquid.{Dsp}
use openstint.Reader.{update_reserve_buffer}
use openstint.Reader.Training.{SymbolReader, new_symbol_reader}
use openstint.Reader.Symbol.{read_preamble}
use openstint.Reader.Symbol.Stream.{read_stream, read_preamble-stream}
use openstint.Receiver.Frames.{Station, frame_wait, new_station, detect_rounds}
use openstint.Receiver.Frames.Ready.{IsReady, symbols_left}
use openstint.Receiver.Frames.Progress.{detect_rounds_frame, IsFinished}
use openstint.Receiver.Decoder.{Call, receives, reports_at, Decoder}
use openstint.Tests.{whole, keep, rate, echo, frame_of}

-- An equaliser that keeps the last sample, and a modem whose soft bit is 0 or 255.
abbrev pub plain : Dsp whole
plain = record {
  sqrt = λ a. a;
  abs = λ a. a.0;
  arg = λ a. a.1;
  polar = λ magnitude angle. (magnitude, angle);
  Eqlms = ℤ × ℤ;
  eqlms_create = λ taps n. (pos 0, pos 0);
  eqlms_reset = λ eq. (pos 0, pos 0);
  eqlms_set_bw = λ eq mu. eq;
  eqlms_push = λ eq x. x;
  eqlms_execute = λ eq. eq;
  eqlms_step = λ eq wanted got. eq;
  Modem = ℤ × ℤ;
  modem_create = (pos 0, pos 0);
  demodulate_soft = λ modem x. (255, x);
  demodulator_evm = λ modem. pos 0;
  demodulator_sample = λ modem. modem;
}

abbrev pub idle_station : Station whole plain keep rate echo
idle_station = new_station whole plain keep rate echo (frame_of rc3 [])

abbrev pub quiet : List Complex
quiet = replicate 100 origin

-- A buffer, one that is too small, and another buffer.
abbrev buffers : List (ℕ × List Complex)
buffers = (10, quiet) ∷ (20, take 5 quiet) ∷ (30, quiet) ∷ []

-- A preamble was just detected.
abbrev begun : Station whole plain keep rate echo
begun = record idle_station {
  frame_parse_mode = frame_wait;
  pending_trail = pos 1;
  frame = new_frame whole rc3 (pos 1) 1000 5000;
}

begun-IsReady : IsReady whole plain keep rate echo begun
unfolding new_frame
begun-IsReady = record {
  sound = new_frame_detector-IsSound whole;
  reserve = refl;
  mode = (refl, record { preamble = refl; payload = refl }, refl);
  trainer = record { bounded = omega arith; filled = inl refl };
}

abbrev long_quiet : List Complex
long_quiet = replicate 500 origin

detect_rounds_frame_example :
    (out : Bool × Station whole plain keep rate echo) × (detect_rounds whole plain keep rate echo 10
        long_quiet 88 2 false begun
      ≡ detect_rounds whole plain keep rate echo 10 long_quiet 5 85 out.0 out.1)
    × IsFinished whole plain keep rate echo begun out
unfolding symbols_left new_frame
detect_rounds_frame_example =
    detect_rounds_frame whole plain keep rate echo 5 10 long_quiet 2 false begun begun-IsReady
      (omega arith) (omega arith)

-- A preamble whose window starts in the previous buffer.
abbrev reader : SymbolReader whole plain
reader = new_symbol_reader whole plain

read_preamble-stream_example :
    read_preamble whole plain (pos 0, pos 0) quiet 8 (frame_of rc3 []) reader
    ≡ read_stream whole plain
        (pos 0, pos 0)
        18
        (drop 36 (replicate 100 origin ++ take 8 quiet))
        (frame_of rc3 [])
        reader
unfolding update_reserve_buffer
read_preamble-stream_example =
    read_preamble-stream whole plain (pos 0, pos 0) quiet quiet 1 (frame_of rc3 []) reader refl
      (omega arith)

-- Two buffers, with reports before, between and after them.
abbrev calls : List Call
calls =
    reports_at 100 10 []
    ∷ receives 10 quiet
    ∷ reports_at 6000100 6000010 []
    ∷ receives 20 quiet
    ∷ reports_at 6000200 6000110 []
    ∷ []

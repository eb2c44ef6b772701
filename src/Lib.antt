-- ===== src/Lib.antt =====
-- OpenStint: the decoding and lap-timing core of the receiver, as a verification library.
--
-- The receiver turns radio samples into passings of cars over a loop. Its parts, in the order in
-- which the data flow, and the files that model them:
--
-- * src/preamble.hpp finds preambles among differential symbols with a circular buffer and a matched
--   filter. Correlator models `CircBuff` and `Preamble` for 16-bit words, the only instance.
--   Correlator/Window and Correlator/Rotation compare it with the list of the last 16 symbols,
--   Correlator/Square looks at its 32-bit square.
-- * src/transponder.hpp and src/transponder.cpp hold the protocol table, the decoders of the
--   OpenStint and RC3 payloads, and the block-list: Transponder, Transponder/Rc3 and
--   Transponder/Blacklist. Below Transponder/Rc3, Code has the encoder and the channel, Message the
--   layout of the message; Rounds, Correct and Decode follow the decoder's register.
-- * src/frame.hpp and src/frame.cpp: Frame models `Frame` with `bits`, which finds the payload behind
--   the preamble and turns inverted bits round. The soft bits of a frame are a list of bytes; the
--   pointer that `bits` returns is the rest of that list.
--   Detector models `FrameDetector`, with `last_samples[i]` and `buffers[i]` as one lane for each
--   of the four positions of a sample in its symbol. Reader models `SymbolReader`: its reserve,
--   `load_preamble_buffer` and `is_frame_complete`; below it, Training has `train_preamble`, Symbol
--   `read_symbol` and `read_preamble`, and Liquid the operations of liquid that they take.
-- * src/rc4.hpp and src/rc4.cpp: Rc4/Message models the constructor of `RC4Message`, Rc4/Registry
--   `RC4Registry`, and Rc4/Trainer `RC4Trainer`, each method a function on the object's state.
--   Rc4/FileBased models `RC4FileBasedRegistry`, Rc4/Lines the text of its files. The listing of the
--   directory is an argument of `resync`, and the text that `store` appends is a part of its result.
--   FileBased/Names has the names of the files, and FileBased/Restart what is known when the files
--   are read into an empty registry.
-- * src/passing.hpp and src/passing.cpp: Passing/System has the keys of the detector's map,
--   Passing/Waveform the numeric routines, Passing/Point `compute_passing_point`, and
--   Passing/Detector the methods of `PassingDetector`. Below it, Bounded has the calls of the
--   detector as a list, Queue what one transponder sees of them, and Hits how many detections they
--   count.
-- * src/counters.hpp and src/counters.cpp keep the counters of the reports: Statistics.
-- * Of src/commons.cpp, Receiver models `process_frame` and `reporting_timestamp`; its state is the
--   detector, the block-list, the registry and the trainer, which the source keeps in static
--   variables. Receiver/Frames models `detect_frames`, with a record of the static variables that it
--   works on; Ready has what each of its modes relies on, Symbols, Rounds, Sound and Progress follow
--   it from a symbol to any sequence of buffers. Receiver/Report models `report_detections`, whose
--   case DONE is in Receiver/Learning. Receiver/Decoder puts the two together: the buffers that
--   a device's callback hands over, and the reports of the main loop between them, from the resync
--   of `init_commons` on; Decoder/Restart is about the next start of the program. Receiver/Effects
--   cuts `process_frame` at the locks that it takes, and Receiver/Threads has the two threads of a
--   program as steps that may be interleaved in any order: Receiving and Reporting are about the
--   steps of one thread, Sound about both, and Buffer, Resync and Alone compare the steps of a thread that
--   is not interrupted with `detect_frames`, `resync` and `report_detections`.
-- * src/capture.cpp, src/main_hackrf.cpp and src/main_rtlsdr.cpp hold the programs. Of these,
--   Programs/Capture models `replay_capture` and the callbacks that make samples of bytes,
--   Programs/Arguments the command lines with `parse_common_arguments`, and Programs/Session the
--   calls of libhackrf and librtlsdr, with the results of the calls as a record that the program is
--   run against; Session/Phases says in what order the two libraries are to be called, and
--   Session/Interrupted has the signals. Programs/Start
--   has the choice between these, and Programs/Replay runs a replay through the receiver.
--
-- Of the simulations that come with the docs, Encoder models `conv_encode` of docs/fec-conv.c, with
-- its parities in Encoder/Parity, its size in Encoder/Length, and the code that it is in
-- Encoder/Convolution.
--
-- Base has what these share: Boolean tests, lists, association lists in the order of their keys for
-- `std::map` and `std::set` (Base/Maps, Base/Ordered), bit operations (Base/Bits), integers
-- (Base/Int). Float is the record of floating-point operations that the numeric definitions take;
-- no law of arithmetic is assumed of them, and `float` and `double` are one type. Tests has a small
-- instance of it, and runs the definitions on concrete data.
--
-- Machine integers are natural numbers with their wrap-around written out: `% 2 ^ 32`, `% 2 ^ 64`,
-- and a difference as `(a + 2 ^ 64 - b) % 2 ^ 64`. A method that holds its mutex from the first line
-- to the last is one step, so the interleavings of the receiving and the reporting thread are, for
-- one object, the lists of calls over which Rc4/Trainer/Invariant, Rc4/Registry/Fresh, Rc4/FileBased/Current,
-- Passing/Detector/Bounded and Receiver/Decoder/Total are stated. Every loop is a structural
-- recursion: over its list, or over the number of rounds left, which is the source's constant
-- bound (32 bits, 17 places, 40 pairs, 100 soft bits, 64 payload bits, 18 symbols of a preamble, a
-- quarter of a buffer's samples), so there is no fuel to run out of. Reads past the end of the
-- samples or of the soft bits, and of the back of an empty buffer, are the result `none`.
--
-- Parameters: libfec's Viterbi decoder and liquid's CRC check (`Codec`), liquid's FIR filter (`fir`),
-- liquid's equaliser and modem with the square root and the polar form of the standard library
-- (`Dsp`), the floating-point operations, the encoder's polynomials, and the build's sample rate. No
-- law is assumed of them.
--
-- The bounds of the builds: `SAMPLES_PER_SYMBOL` is 4 here, the default of frame.hpp, where
-- CMakeLists.txt builds the HackRF's program with 8 and the RTL-SDR's with 2 by its defaults; so there
-- are four lanes in Detector, the reserve has 72 samples (with 8 it has 144, with 2 it has 36), and
-- nothing here is said of the other two values. The index of the loop in `detect_frames` is a natural
-- number, which is the source's `uint32_t` and `int` as long as a buffer has fewer than 2^31 samples:
-- the callers hand over 16384 samples at most from a file, and a transfer of the radio's library. In
-- the waveform analysis a read out of range is a zero and not `none`: of its reads only those of the
-- interpolation's loop are proved to be in range (Passing/Waveform/Interpolation), and what is said
-- elsewhere of reads is not about them.
--
-- Not modelled: in src/commons.cpp the text of the reports and ZeroMQ, also in `init_commons`, of
-- which the resync is modelled, and the exceptions of all later calls; in the programs the
-- messages, the pacing of a replay, the signal handlers but for the calls of librtlsdr, and the
-- timing of the watchdog (a signal or a lost device is the number of rounds that the main loop
-- has); src/crash_handler.cpp; and the main functions of the simulations in docs/. All of this is
-- input and output around the calls that are modelled, or a run of other libraries on random noise.
-- Of the threads, the memory that no lock covers (`last_reset_timestamp`, which only the main
-- thread writes) is read as it is.
pub mod Base
pub mod Encoder
pub mod Float
pub mod Correlator
pub mod Transponder
pub mod Frame
pub mod Passing
pub mod Detector
pub mod Reader
pub mod Statistics
pub mod Rc4
pub mod Receiver
pub mod Programs
mod Tests

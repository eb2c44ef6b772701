-- ===== src/Receiver/Frames/Ready.antt =====
-- What `detect_frames` of src/commons.cpp relies on in each of its modes, over one symbol.
use openstint.Base.{
  Bool, List, Option, ap, arith, bind-some, drop, length, length-drop, none, refl, some, subst, sym,
  true, ℕ, ◌+◌, ◌-◌, ◌<◌, ◌∙◌, ◌≡◌, ◌≤◌, ◌⊎◌,
}
use openstint.Base.Int.{pos}
use openstint.Float.{Float}
use openstint.Transponder.{Codec, TransponderProtocol, transponder_props}
use openstint.Detector.{Complex, FrameDetector, process_baseband}
use openstint.Detector.Lanes.{IsSound, process_baseband_within}
use openstint.Frame.{Frame, new_frame}
use openstint.Reader.{reserve_buffer_size, is_frame_complete}
use openstint.Reader.Liquid.{Dsp}
use openstint.Reader.Training.{SymbolReader}
use openstint.Reader.Training.Answers.{IsTrained}
use openstint.Reader.Symbol.Count.{Grown}
use openstint.Statistics.{RxStatistics, register_frame}
use openstint.Receiver.{Receiver, process_frame}
use openstint.Rc4.Trainer.Invariant.{IsSafe}
use openstint.Receiver.Frames.{
  FrameParseMode, frame_seek, frame_wait, frame_found, Station, seek_symbol, on_baseband,
  on_detected,
}

module _ (F : Float) (dsp : Dsp F) (fir : List F.R → List F.R → List F.R) (sample_rate : ℕ)
    (codec : Codec) where
  abbrev St : Type 0
  St = Station F dsp fir sample_rate codec

  -- The sizes of a frame are those of its protocol.
  pub record FitsProtocol (f : Frame F) : Type 0 where
    pub preamble : f.preamble_size ≡ 16
    pub payload : f.payload_size ≡ (transponder_props f.transponder_protocol).payload_size

  -- What each mode relies on: a wait of one symbol for a frame without bits, and then between 18
  -- bits and the number at which the frame is complete.
  abbrev pub InMode : FrameParseMode → St → Type 0
  InMode frame_seek st = Unit
  InMode frame_wait st =
      (st.pending_trail ≡ pos 1) × FitsProtocol st.frame × (length st.frame.softbits ≡ 0)
  InMode frame_found st =
      FitsProtocol st.frame
      × 18 ≤ length st.frame.softbits
      × length st.frame.softbits < 20 + st.frame.payload_size

  pub record IsReady (st : St) : Type 0 where
    pub sound : IsSound F 4 st.frame_detector
    pub reserve : length st.symbol_reader.reserve_buffer ≡ reserve_buffer_size
    pub mode : InMode st.frame_parse_mode st
    pub trainer : IsSafe F st.receiver.trainer

  -- What is not a frame's own does not matter to the mode.
  pub InMode-kept :
      (m : FrameParseMode) (st : St) (detector : FrameDetector F) (reader : SymbolReader F dsp)
      (rx : Receiver F fir sample_rate codec) (stats : RxStatistics F) (tc : ℕ)
      → InMode m st
      → InMode m (record st {
        frame_detector = detector;
        symbol_reader = reader;
        receiver = rx;
        rx_stats = stats;
        timecode = tc;
      })
  InMode-kept frame_seek st detector reader rx stats tc v = v
  InMode-kept frame_wait st detector reader rx stats tc v = v
  InMode-kept frame_found st detector reader rx stats tc v = v

  pub Grown-FitsProtocol :
      (n : ℕ) (f g : Frame F) → Grown F dsp n f g → FitsProtocol f → FitsProtocol g
  Grown-FitsProtocol n f g grown fits = record {
    preamble = grown.preamble ∙ fits.preamble;
    payload =
        grown.payload
        ∙ fits.payload
        ∙ ap (λ p. (transponder_props p).payload_size) (sym grown.protocol);
  }

  pub IsTrained-FitsProtocol :
      (f : Frame F) (r : SymbolReader F dsp) (out : Frame F × SymbolReader F dsp)
      → IsTrained F dsp f r out
      → FitsProtocol f
      → FitsProtocol out.0
  IsTrained-FitsProtocol f r out trained fits = record {
    preamble = trained.preamble ∙ fits.preamble;
    payload =
        trained.payload
        ∙ fits.payload
        ∙ ap (λ p. (transponder_props p).payload_size) (sym trained.protocol);
  }

  on_baseband-IsReady :
      (timestamp idx : ℕ) (found : Option (TransponderProtocol × F.R)) (seen : Bool) (st : St)
      → st.frame_parse_mode ≡ frame_seek
      → IsSound F 4 st.frame_detector
      → length st.symbol_reader.reserve_buffer ≡ reserve_buffer_size
      → IsSafe F st.receiver.trainer
      → IsReady (on_baseband F dsp fir sample_rate codec timestamp idx found seen st).1
  unfolding on_baseband on_detected new_frame
  on_baseband-IsReady timestamp idx none seen st seeking sound full safe = record {
    sound = sound;
    reserve = full;
    mode = subst (λ m. InMode m st) (sym seeking) tt;
    trainer = safe;
  }
  on_baseband-IsReady timestamp idx (some detected) seen st seeking sound full safe = record {
    sound = sound;
    reserve = full;
    mode = (refl, record { preamble = refl; payload = refl }, refl);
    trainer = safe;
  }

  on_baseband-timecode :
      (timestamp idx : ℕ) (found : Option (TransponderProtocol × F.R)) (seen : Bool) (st : St)
      → (on_baseband F dsp fir sample_rate codec timestamp idx found seen st).1.timecode
        ≡ st.timecode
  unfolding on_baseband on_detected
  on_baseband-timecode timestamp idx none seen st = refl
  on_baseband-timecode timestamp idx (some detected) seen st = refl

  -- A symbol in the mode of seeking.
  pub seek_symbol-IsReady :
      (timestamp : ℕ) (samples : List Complex) (idx : ℕ) (seen : Bool) (st : St)
      → idx + 4 ≤ length samples
      → st.frame_parse_mode ≡ frame_seek
      → IsReady st
      → (out : Bool × St) × (seek_symbol F dsp fir sample_rate codec timestamp samples idx seen st
          ≡ some out)
        × IsReady out.1
        × (out.1.timecode ≡ st.timecode)
  unfolding seek_symbol
  seek_symbol-IsReady timestamp samples idx seen st inside seeking v =
      let (out, e, sound) =
        process_baseband_within F 4 (drop idx samples) st.frame_detector (omega arith)
          (omega (arith, length-drop idx samples)) v.sound in
      let next = λ (p : Option (TransponderProtocol × F.R) × FrameDetector F).
        on_baseband F dsp fir sample_rate codec timestamp idx p.0 seen
          (record st { frame_detector = p.1 }) in
      (
        next out,
        bind-some (process_baseband F (drop idx samples) st.frame_detector) (λ p. some (next p)) e,
        on_baseband-IsReady timestamp idx out.0 seen (record st { frame_detector = out.1 }) seeking
            sound v.reserve v.trainer,
        on_baseband-timecode timestamp idx out.0 seen (record st { frame_detector = out.1 }),
      )

  -- How many symbols the loop still reads for the frame that it is at.
  abbrev pub left_in : FrameParseMode → St → ℕ
  left_in frame_seek st = 0
  left_in frame_wait st = 3 + st.frame.payload_size
  left_in frame_found st = 20 + st.frame.payload_size - length st.frame.softbits

  unfoldable pub symbols_left : St → ℕ
  symbols_left st = left_in st.frame_parse_mode st

  -- The frame is complete, was processed over the receiver as it was before, and was counted with
  -- the result.
  pub record Processed (st out : St) : Type 0 where
    pub processed : Bool
    pub complete : is_frame_complete F out.frame ≡ true
    pub result :
        process_frame F fir sample_rate codec out.frame st.receiver ≡ some (processed, out.receiver)
    pub counted : out.rx_stats ≡ register_frame F processed st.rx_stats

  -- A symbol of a frame: one less is left, or it was the last and the frame was processed.
  abbrev pub Advances : St → St → Type 0
  Advances st out =
      ((out.frame_parse_mode ≡ frame_found)
        × (symbols_left st ≡ symbols_left out + 1)
        × (out.rx_stats ≡ st.rx_stats)
        × (out.receiver ≡ st.receiver))
      ⊎ ((out.frame_parse_mode ≡ frame_seek) × (symbols_left st ≡ 1) × Processed st out)

  abbrev pub Answer : St → Option St → Type 0
  Answer st o =
      (out : St) × (o ≡ some out) × IsReady out × Advances st out × (out.timecode ≡ st.timecode)

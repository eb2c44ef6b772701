-- ===== src/Receiver/Threads/Receiving.antt =====
-- The steps of the callback's thread of a device program: none reads outside of its arrays, whatever
-- the main thread did to the shared objects before.
use openstint.Base.{
  Bool-cases, List, [], arith, inl, inr, length, ltb, refl, ℕ, ◌%◌, ◌+◌, ◌^◌, ◌∷◌, ◌≡◌,
}
use openstint.Float.{Float}
use openstint.Transponder.{Codec}
use openstint.Detector.{Complex}
use openstint.Frame.{Frame}
use openstint.Reader.{reserve_buffer_size}
use openstint.Reader.Liquid.{Dsp}
use openstint.Statistics.{register_frame}
use openstint.Rc4.Trainer.Invariant.{IsSafe, append-IsSafe}
use openstint.Receiver.Effects.{Effect, detects, syncs, trains, perform}
use openstint.Receiver.{Receiver, detect, train}
use openstint.Receiver.Frames.{Station}
use openstint.Receiver.Frames.Ready.{InMode-kept}
use openstint.Receiver.Threads.Callback.{Position, away, looping, handling, arrive, receive_step}
use openstint.Receiver.Threads.Rounds.{Ready, Fits, Moves, loop_step-Moves}

module _ (F : Float) (dsp : Dsp F) (fir : List F.R → List F.R → List F.R) (sample_rate : ℕ)
    (codec : Codec) where
  abbrev S : Type 0
  S = Station F dsp fir sample_rate codec

  perform-kept :
      (f : Frame F) (e : Effect) (r : Receiver F fir sample_rate codec)
      → IsSafe F r.trainer
      → IsSafe F (perform F fir sample_rate codec f e r).trainer
        × ((perform F fir sample_rate codec f e r).trainer.state ≡ r.trainer.state)
  unfolding perform detect train openstint.Rc4.Trainer.append
  perform-kept f (detects id) r v = (v, refl)
  perform-kept f (syncs timestamp) r v = (v, refl)
  perform-kept f (trains id payload) r v = (append-IsSafe F _ r.trainer v, refl)

  -- The callback's thread is never stuck.
  pub receive_step-Moves :
      (position : Position F) (st : S)
      → Fits F dsp fir sample_rate codec position
      → Ready F dsp fir sample_rate codec st
      → Moves F dsp fir sample_rate codec st (receive_step F dsp fir sample_rate codec position st)
  unfolding receive_step
  receive_step-Moves away st v ready = ((away, st), refl, tt, ready, refl)
  receive_step-Moves (looping l) st v ready =
      loop_step-Moves F dsp fir sample_rate codec l.left l st refl v ready
  receive_step-Moves (handling l f processed []) st v ready =
      let stats = register_frame F processed st.rx_stats in
      (
        (looping l, record st { rx_stats = stats }),
        refl,
        v,
        record {
          sound = ready.sound;
          reserve = ready.reserve;
          mode =
              InMode-kept F dsp fir sample_rate codec st.frame_parse_mode st st.frame_detector
                st.symbol_reader st.receiver stats st.timecode ready.mode;
          trainer = ready.trainer;
        },
        refl,
      )
  receive_step-Moves (handling l f processed (e ∷ es)) st v ready =
      let (safe, same) = perform-kept f e st.receiver ready.trainer in
      let r = perform F fir sample_rate codec f e st.receiver in
      (
        (handling l f processed es, record st { receiver = r }),
        refl,
        v,
        record {
          sound = ready.sound;
          reserve = ready.reserve;
          mode =
              InMode-kept F dsp fir sample_rate codec st.frame_parse_mode st st.frame_detector
                st.symbol_reader r st.rx_stats st.timecode ready.mode;
          trainer = safe;
        },
        same,
      )

  -- A buffer comes.
  pub arrive-Fits :
      (timestamp : ℕ) (samples : List Complex) (st : S)
      → Ready F dsp fir sample_rate codec st
      → Fits F dsp fir sample_rate codec (arrive F dsp fir sample_rate codec timestamp samples st).0
        × Ready F dsp fir sample_rate codec
            (arrive F dsp fir sample_rate codec timestamp samples st).1
        × ((arrive F dsp fir sample_rate codec timestamp samples st).1.receiver ≡ st.receiver)
  unfolding arrive
  arrive-Fits timestamp samples st ready =
      elim (Bool-cases (ltb (length samples) reserve_buffer_size)) [
        | inl small ↦ rw small (
          tt,
          record {
            sound = ready.sound;
            reserve = ready.reserve;
            mode =
                InMode-kept F dsp fir sample_rate codec st.frame_parse_mode st st.frame_detector
                  st.symbol_reader st.receiver st.rx_stats ((st.timecode + length samples) % 2 ^ 64)
                  ready.mode;
            trainer = ready.trainer;
          },
          refl,
        )
        | inr large ↦
            rw large (record { inside = omega arith; enough = ground (arith, large) }, ready, refl)
      ]

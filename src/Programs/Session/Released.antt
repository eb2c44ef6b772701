-- ===== src/Programs/Session/Released.antt =====
-- That the programs of src/main_hackrf.cpp and src/main_rtlsdr.cpp leave their radio closed.
use openstint.Base.{
  Bool-cases, [], arith, inl, inr, negb, refl, replicate, some, suc, zero, ℕ, ◌++◌, ◌||◌, ◌∙◌, ◌∷◌,
  ◌≡◌,
}
use openstint.Programs.Session.Hackrf.{
  HackrfCall, HackrfOutcome, loop_rounds, receive, configure, hackrf_main,
}
use openstint.Programs.Session.Rtlsdr.{
  RtlsdrCall, RtlsdrOutcome, identify, set_gain, stream, tune, sample_directly, open_device,
  rtlsdr_main, is_v4,
}
use openstint.Programs.Session.Phases.{
  down, opened, receiving, after_hackrf, after_rtlsdr, session, session-append, session-replicate,
}

loop-session :
    (o : HackrfOutcome) (n : ℕ)
    → session (after_hackrf o) receiving (loop_rounds o n) ≡ some receiving
unfolding loop_rounds after_hackrf session
loop-session o zero = ground arith
loop-session o (suc n) = loop-session o n

-- HackRF: every path through the settings ends with the device open and stopped.
receive-session : (o : HackrfOutcome) → session (after_hackrf o) opened (receive o) ≡ some opened
unfolding receive after_hackrf session
receive-session o = elim (Bool-cases (o.success HackrfCall.start_rx)) [
  | inl started ↦
      rw (started, started)
        (session-append (after_hackrf o) receiving receiving (loop_rounds o o.rounds)
          (HackrfCall.stop_rx ∷ []) (loop-session o o.rounds))
  | inr failed ↦ rw (failed, failed) refl
]

configure-session :
    (o : HackrfOutcome) → session (after_hackrf o) opened (configure o) ≡ some opened
unfolding configure after_hackrf session
configure-session o = elim (Bool-cases (o.success HackrfCall.set_freq)) [
  | inr no_freq ↦ rw no_freq refl
  | inl freq ↦ elim (Bool-cases (o.success HackrfCall.set_sample_rate)) [
    | inr no_rate ↦ rw (freq, no_rate) refl
    | inl rate ↦ elim (Bool-cases (o.success HackrfCall.set_baseband_filter_bandwidth)) [
      | inr no_filter ↦ rw (freq, rate, no_filter) refl
      | inl filter ↦ rw (freq, rate, filter) (receive-session o)
    ]
  ]
]

pub hackrf_main-session :
    (o : HackrfOutcome) → session (after_hackrf o) down (hackrf_main o).0 ≡ some down
unfolding hackrf_main after_hackrf session
hackrf_main-session o = elim (Bool-cases (o.success HackrfCall.hackrf_init)) [
  | inr no_init ↦ rw (no_init, no_init) refl
  | inl init ↦ elim (Bool-cases (negb (o.success HackrfCall.open_by_serial) || o.is_null)) [
    | inl closed ↦ rw (init, closed, init, closed) refl
    | inr open_now ↦
        rw (init, open_now, init, open_now)
          (session-append (after_hackrf o) opened opened (configure o)
            (HackrfCall.hackrf_close ∷ HackrfCall.hackrf_exit ∷ []) (configure-session o))
  ]
]

identify-session : (o : RtlsdrOutcome) → session (after_rtlsdr o) opened (identify o) ≡ some opened
unfolding identify after_rtlsdr session
identify-session o = elim (Bool-cases (o.success RtlsdrCall.get_usb_strings)) [
  | inr unnamed ↦ rw unnamed refl
  | inl named ↦ elim (Bool-cases o.named_v4) [
    | inl v4 ↦ rw (named, v4) refl
    | inr other ↦ rw (named, other) refl
  ]
]

set_gain-session : (o : RtlsdrOutcome) → session (after_rtlsdr o) opened (set_gain o) ≡ some opened
unfolding set_gain after_rtlsdr session
set_gain-session o = elim (Bool-cases (is_v4 o)) [
  | inr older ↦ rw older refl
  | inl v4 ↦ elim (Bool-cases (o.success RtlsdrCall.set_tuner_gain)) [
    | inl gain ↦ rw (v4, gain) refl
    | inr failed ↦ rw (v4, failed) refl
  ]
]

stream-session : (o : RtlsdrOutcome) → session (after_rtlsdr o) opened (stream o) ≡ some opened
unfolding stream after_rtlsdr session
stream-session o =
    session-append (after_rtlsdr o) opened opened (set_gain o)
      (RtlsdrCall.set_bias_tee
          ∷ RtlsdrCall.reset_buffer
          ∷ RtlsdrCall.start_thread
          ∷ replicate o.rounds RtlsdrCall.report
        ++ RtlsdrCall.cancel_async ∷ RtlsdrCall.join_thread ∷ [])
      (set_gain-session o)
    ∙ session-append (after_rtlsdr o) receiving receiving (replicate o.rounds RtlsdrCall.report)
        (RtlsdrCall.cancel_async ∷ RtlsdrCall.join_thread ∷ [])
        (session-replicate (after_rtlsdr o) receiving RtlsdrCall.report o.rounds refl)

tune-session : (o : RtlsdrOutcome) → session (after_rtlsdr o) opened (tune o) ≡ some opened
unfolding tune after_rtlsdr session
tune-session o = elim (Bool-cases (o.success RtlsdrCall.set_center_freq)) [
  | inr no_freq ↦ rw no_freq refl
  | inl freq ↦ elim (Bool-cases (o.success RtlsdrCall.set_sample_rate)) [
    | inr no_rate ↦ rw (freq, no_rate) refl
    | inl rate ↦ rw (freq, rate) (stream-session o)
  ]
]

sample_directly-session :
    (o : RtlsdrOutcome) → session (after_rtlsdr o) opened (sample_directly o) ≡ some opened
unfolding sample_directly after_rtlsdr session
sample_directly-session o = elim (Bool-cases (is_v4 o)) [
  | inl v4 ↦ rw v4 (tune-session o)
  | inr older ↦ elim (Bool-cases (o.success RtlsdrCall.set_direct_sampling)) [
    | inl direct ↦ rw (older, direct) (tune-session o)
    | inr failed ↦ rw (older, failed) refl
  ]
]

open_device-session :
    (o : RtlsdrOutcome) → session (after_rtlsdr o) down (open_device o).0 ≡ some down
unfolding open_device after_rtlsdr session
open_device-session o = elim (Bool-cases (negb (o.success RtlsdrCall.rtlsdr_open) || o.is_null)) [
  | inl closed ↦ rw (closed, closed) refl
  | inr open_now ↦
      rw (open_now, open_now)
        (session-append (after_rtlsdr o) opened opened (identify o)
            (sample_directly o ++ RtlsdrCall.set_bias_tee ∷ RtlsdrCall.rtlsdr_close ∷ [])
            (identify-session o)
          ∙ session-append (after_rtlsdr o) opened opened (sample_directly o)
              (RtlsdrCall.set_bias_tee ∷ RtlsdrCall.rtlsdr_close ∷ []) (sample_directly-session o))
]

pub rtlsdr_main-session :
    (o : RtlsdrOutcome) → session (after_rtlsdr o) down (rtlsdr_main o).0 ≡ some down
unfolding rtlsdr_main after_rtlsdr session
rtlsdr_main-session o = elim (Bool-cases o.has_device) [
  | inr nothing ↦ rw nothing refl
  | inl found ↦ elim (Bool-cases o.has_serial) [
    | inr first ↦ simp (found, first) (open_device-session o)
    | inl wanted ↦ elim (Bool-cases (o.success RtlsdrCall.get_index_by_serial)) [
      | inl known ↦ simp (found, wanted, known) (open_device-session o)
      | inr unknown ↦ simp (found, wanted, unknown) refl
    ]
  ]
]

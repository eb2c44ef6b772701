-- ===== src/Programs/Session/Phases.antt =====
-- How libhackrf and librtlsdr want to be called by src/main_hackrf.cpp and src/main_rtlsdr.cpp: a device is
-- opened before it is set up, stopped before it is closed, and closed once.
use openstint.Base.{
  List, Option, Option-cases, [], ap, bind-some, if◌then◌else◌, inl, inr, negb, none, refl,
  replicate, some, suc, sym, zero, ℕ, ◌++◌, ◌>>=◌, ◌||◌, ◌∙◌, ◌∷◌, ◌≡◌,
}
use openstint.Programs.Session.Hackrf.{HackrfCall, HackrfOutcome}
use openstint.Programs.Session.Rtlsdr.{RtlsdrCall, RtlsdrOutcome}

-- Where a session stands, by what was asked for: an error of a call that stops or closes is not
-- answered by the programs, and does not keep them from going on.
pub data Phase : Type 0 where
  down : Phase
  ready : Phase
  opened : Phase
  receiving : Phase
  -- asked to stop, with the reading thread not yet joined
  stopping : Phase

-- What a call of libhackrf makes of the phase; `none` is a call that is out of place.
unfoldable pub after_hackrf : HackrfOutcome → Phase → HackrfCall → Option Phase
after_hackrf o down HackrfCall.hackrf_init =
    if o.success HackrfCall.hackrf_init then some ready else some down
after_hackrf o ready HackrfCall.open_by_serial =
    if negb (o.success HackrfCall.open_by_serial) || o.is_null then some ready else some opened
after_hackrf o ready HackrfCall.hackrf_exit = some down
after_hackrf o opened HackrfCall.partid_serialno_read = some opened
after_hackrf o opened HackrfCall.set_freq = some opened
after_hackrf o opened HackrfCall.set_sample_rate = some opened
after_hackrf o opened HackrfCall.set_baseband_filter_bandwidth = some opened
after_hackrf o opened HackrfCall.set_lna_gain = some opened
after_hackrf o opened HackrfCall.set_vga_gain = some opened
after_hackrf o opened HackrfCall.set_amp_enable = some opened
after_hackrf o opened HackrfCall.set_antenna_enable = some opened
after_hackrf o opened HackrfCall.start_rx =
    if o.success HackrfCall.start_rx then some receiving else some opened
after_hackrf o receiving HackrfCall.is_streaming = some receiving
after_hackrf o receiving HackrfCall.report = some receiving
after_hackrf o receiving HackrfCall.stop_rx = some opened
after_hackrf o opened HackrfCall.hackrf_close = some ready
after_hackrf o phase call = none

-- The same for librtlsdr. A device that is not being read answers a cancelling with an error, so that
-- one too many is in place; a thread whose reading was not cancelled is not waited for.
unfoldable pub after_rtlsdr : RtlsdrOutcome → Phase → RtlsdrCall → Option Phase
after_rtlsdr o down RtlsdrCall.get_device_count = some down
after_rtlsdr o down RtlsdrCall.get_index_by_serial = some down
after_rtlsdr o down RtlsdrCall.rtlsdr_open =
    if negb (o.success RtlsdrCall.rtlsdr_open) || o.is_null then some down else some opened
after_rtlsdr o opened RtlsdrCall.get_usb_strings = some opened
after_rtlsdr o opened RtlsdrCall.get_device_name = some opened
after_rtlsdr o opened RtlsdrCall.get_tuner_type = some opened
after_rtlsdr o opened RtlsdrCall.set_direct_sampling = some opened
after_rtlsdr o opened RtlsdrCall.set_center_freq = some opened
after_rtlsdr o opened RtlsdrCall.set_sample_rate = some opened
after_rtlsdr o opened RtlsdrCall.set_tuner_bandwidth = some opened
after_rtlsdr o opened RtlsdrCall.set_tuner_gain_mode = some opened
after_rtlsdr o opened RtlsdrCall.set_tuner_gain = some opened
after_rtlsdr o opened RtlsdrCall.get_tuner_gain = some opened
after_rtlsdr o opened RtlsdrCall.set_bias_tee = some opened
after_rtlsdr o opened RtlsdrCall.reset_buffer = some opened
after_rtlsdr o opened RtlsdrCall.start_thread = some receiving
after_rtlsdr o receiving RtlsdrCall.report = some receiving
after_rtlsdr o receiving RtlsdrCall.cancel_async = some stopping
after_rtlsdr o stopping RtlsdrCall.report = some stopping
after_rtlsdr o stopping RtlsdrCall.cancel_async = some stopping
after_rtlsdr o stopping RtlsdrCall.join_thread = some opened
after_rtlsdr o opened RtlsdrCall.cancel_async = some opened
after_rtlsdr o opened RtlsdrCall.rtlsdr_close = some down
after_rtlsdr o phase call = none

module _ {C : Type 0} (after : Phase → C → Option Phase) where
  -- A session from a phase, as long as no call is out of place.
  unfoldable pub session : Phase → List C → Option Phase
  session phase [] = some phase
  session phase (c ∷ cs) = do phase' ← after phase c; session phase' cs

  pub session-append :
      (phase phase' : Phase) (cs ds : List C)
      → session phase cs ≡ some phase'
      → session phase (cs ++ ds) ≡ session phase' ds
  unfolding session
  session-append phase phase' [] ds e = ap (λ p. session p ds) (cc e)
  session-append phase phase' (c ∷ cs) ds e = elim (Option-cases (after phase c)) [
    | inl none_c ↦ absurd (cc (sym (ap (λ q. q >>= λ p. session p cs) none_c) ∙ e))
    | inr (q, some_c) ↦
        bind-some (after phase c) (λ p. session p (cs ++ ds)) some_c
        ∙ session-append q phase' cs ds
            (sym (bind-some (after phase c) (λ p. session p cs) some_c) ∙ e)
  ]

  pub session-replicate :
      (phase : Phase) (c : C) (n : ℕ)
      → after phase c ≡ some phase
      → session phase (replicate n c) ≡ some phase
  unfolding session
  session-replicate phase c zero e = refl
  session-replicate phase c (suc n) e =
      bind-some (after phase c) (λ p. session p (replicate n c)) e ∙ session-replicate phase c n e

-- ===== src/Programs/Session/Rtlsdr.antt =====
-- The calls of librtlsdr in `main` of src/main_rtlsdr.cpp, in their order, for whatever results they
-- have. The messages are left out. The call `rtlsdr_read_async` is the reading thread's own, at no fixed
-- place among these: here stand the start of the thread and the wait for its end.
use openstint.Base.{
  Bool, List, [], false, if◌then◌else◌, negb, replicate, ℕ, ◌&&◌, ◌++◌, ◌+◌, ◌||◌, ◌∷◌,
}

pub data RtlsdrCall : Type 0 where
  get_device_count : RtlsdrCall
  get_index_by_serial : RtlsdrCall
  rtlsdr_open : RtlsdrCall
  get_usb_strings : RtlsdrCall
  get_device_name : RtlsdrCall
  get_tuner_type : RtlsdrCall
  set_direct_sampling : RtlsdrCall
  set_center_freq : RtlsdrCall
  set_sample_rate : RtlsdrCall
  set_tuner_bandwidth : RtlsdrCall
  set_tuner_gain_mode : RtlsdrCall
  set_tuner_gain : RtlsdrCall
  get_tuner_gain : RtlsdrCall
  set_bias_tee : RtlsdrCall
  reset_buffer : RtlsdrCall
  -- the `std::thread` that calls `rtlsdr_read_async`
  start_thread : RtlsdrCall
  -- the program's own `report_detections`
  report : RtlsdrCall
  cancel_async : RtlsdrCall
  join_thread : RtlsdrCall
  rtlsdr_close : RtlsdrCall

-- What happens: whether a device is there, whether a serial number is asked for, which calls
-- return no error, whether `device` is null after the opening, whether the product's name has "V4"
-- in it, whether the tuner is the R828D, how many rounds the main loop has, and how many signals come after
-- each of the main thread's calls.
pub record RtlsdrOutcome : Type 0 where
  pub has_device : Bool
  pub has_serial : Bool
  pub success : RtlsdrCall → Bool
  pub is_null : Bool
  pub named_v4 : Bool
  pub has_r828d : Bool
  pub rounds : ℕ
  pub signals : ℕ → ℕ

module _ (o : RtlsdrOutcome) where
  open o use {success}

  -- `is_v4` after the name, and after the tuner.
  abbrev pub by_name : Bool
  by_name = success get_usb_strings && o.named_v4

  abbrev pub is_v4 : Bool
  is_v4 = by_name || o.has_r828d

  unfoldable pub identify : List RtlsdrCall
  identify =
      get_usb_strings ∷ (if success get_usb_strings then [] else get_device_name ∷ [])
      ++ (if by_name then [] else get_tuner_type ∷ [])

  unfoldable pub set_gain : List RtlsdrCall
  set_gain =
      if is_v4
      then if success set_tuner_gain
        then set_tuner_gain ∷ get_tuner_gain ∷ []
        else set_tuner_gain ∷ []
      else []

  -- From the bandwidth to the label.
  unfoldable pub stream : List RtlsdrCall
  stream =
      set_tuner_bandwidth ∷ set_tuner_gain_mode ∷ set_gain
      ++ (set_bias_tee ∷ reset_buffer ∷ start_thread ∷ replicate o.rounds report
          ++ cancel_async ∷ join_thread ∷ [])

  -- The settings with their jumps to the label.
  unfoldable pub tune : List RtlsdrCall
  tune =
      if negb (success set_center_freq)
      then set_center_freq ∷ []
      else if negb (success set_sample_rate)
      then set_center_freq ∷ set_sample_rate ∷ []
      else set_center_freq ∷ set_sample_rate ∷ stream

  unfoldable pub sample_directly : List RtlsdrCall
  sample_directly =
      if is_v4
      then tune
      else if success set_direct_sampling
      then set_direct_sampling ∷ tune
      else set_direct_sampling ∷ []

  -- The calls from the opening on.
  unfoldable pub open_device : List RtlsdrCall × ℕ
  open_device =
      if negb (success rtlsdr_open) || o.is_null
      then (rtlsdr_open ∷ [], 1)
      else (rtlsdr_open ∷ identify ++ (sample_directly ++ set_bias_tee ∷ rtlsdr_close ∷ []), 0)

  -- The calls and the status of the program.
  unfoldable pub rtlsdr_main : List RtlsdrCall × ℕ
  rtlsdr_main =
      if negb o.has_device
      then (get_device_count ∷ [], 1)
      else if negb o.has_serial
      then (get_device_count ∷ open_device.0, open_device.1)
      else if success get_index_by_serial
      then (get_device_count ∷ get_index_by_serial ∷ open_device.0, open_device.1)
      else (get_device_count ∷ get_index_by_serial ∷ [], 1)

  -- Whether `device` is set after a call.
  unfoldable pub device_after : RtlsdrCall → Bool → Bool
  device_after rtlsdr_open device = success rtlsdr_open && negb o.is_null
  device_after rtlsdr_close device = false
  device_after c device = device

  -- The calls with those of `signal_handler` among them, which cancels the reading if `device` is
  -- set: `signals i` times after the call number `i`.
  unfoldable pub interrupted : ℕ → Bool → List RtlsdrCall → List RtlsdrCall
  interrupted i device [] = []
  interrupted i device (c ∷ cs) =
      let device' = device_after c device in
      let rest = interrupted (i + 1) device' cs in
      c ∷ (if device' then replicate (o.signals i) cancel_async else []) ++ rest

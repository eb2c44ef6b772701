-- ===== src/Reader.antt =====
-- The sample windows of `SymbolReader` of src/frame.hpp and src/frame.cpp: the reserve of the last
-- buffer, the window of a preamble, and when a frame has all its symbols. The children have the
-- training on a preamble and the demodulation of a symbol.
pub mod Lookback
pub mod Liquid
pub mod Training
pub mod Symbol
use openstint.Base.{
  Bool, List, Option, [], drop, get_elem?, if◌then◌else◌, length, ltb, none, some, suc, take, zero,
  ℕ, ◌*◌, ◌+◌, ◌-◌, ◌||◌, ◌∷◌,
}
use openstint.Base.Int.{ℤ, pos, negsuc}
use openstint.Float.{Float}
use openstint.Correlator.{of_ℤ}
use openstint.Detector.{Complex}
use openstint.Frame.{Frame}

-- 16 symbols and one more on each side, of four samples, the default of `SAMPLES_PER_SYMBOL`: 72. The
-- builds with eight and two samples have 144 and 36.
abbrev pub reserve_buffer_size : ℕ
reserve_buffer_size = (16 + 2 * 1) * 4

-- The `memcpy`, over the reserve's whole size; `none` is a copy from outside the samples.
unfoldable pub update_reserve_buffer : List Complex → ℕ → Option (List Complex)
update_reserve_buffer src end =
    if ltb end reserve_buffer_size || ltb (length src) end
    then none
    else some (take reserve_buffer_size (drop (end - reserve_buffer_size) src))

-- The sample of round `i`: `sample_idx` is `end + i - 72`, and one before the buffer is in the reserve.
unfoldable pub sample_at : List Complex → List Complex → ℕ → ℕ → Option Complex
sample_at reserve src end i =
    if ltb (end + i) reserve_buffer_size
    then get_elem? reserve (end + i)
    else get_elem? src (end + i - reserve_buffer_size)

module _ (F : Float) where
  open F use {R, sub}

  -- `complex_cast<float>(sample) - dc_offset`
  abbrev pub centred : R × R → Complex → R × R
  centred dc_offset s = (sub (of_ℤ F s.re) dc_offset.0, sub (of_ℤ F s.im) dc_offset.1)

  -- The loop of `load_preamble_buffer` from round `i` on, `n` rounds of it.
  unfoldable pub load : R × R → List Complex → List Complex → ℕ → ℕ → ℕ → Option (List (R × R))
  load dc reserve src end zero i = some []
  load dc reserve src end (suc n) i = elim (sample_at reserve src end i) [
    | none ↦ none
    | some s ↦ elim (load dc reserve src end n (i + 1)) [
      | none ↦ none
      | some rest ↦ some (centred dc s ∷ rest)
    ]
  ]

  unfoldable pub load_preamble_buffer :
      R × R → List Complex → List Complex → ℕ → Option (List (R × R))
  load_preamble_buffer dc reserve src end = load dc reserve src end reserve_buffer_size 0

  unfoldable pub is_frame_complete : Frame F → Bool
  is_frame_complete f = ltb (f.preamble_size + f.payload_size + 3) (length f.softbits)

-- ===== src/Passing/Point.antt =====
-- `weigthed_passing`, `resamp_uniform` and `compute_passing_point` of src/passing.cpp. `float` and `double` are one type
-- here; `fir` is liquid's filter, and `sample_rate` the build's SAMPLE_RATE.
pub mod Bounds
use openstint.Base.{
  List, [], if◌then◌else◌, last_or, length, ltb, map, suc, zero, ℕ, ◌%◌, ◌*◌, ◌+◌, ◌-◌, ◌/◌, ◌^◌,
  ◌∷◌,
}
use openstint.Float.{Float}
use openstint.Passing.Waveform.{
  at, interp, Peak, find_peaks, filtfilt, first_crossing, last_crossing, larger,
}

-- `timecode * 1000000ull / SAMPLE_RATE`
unfoldable pub timecode_to_usec : ℕ → ℕ → ℕ
timecode_to_usec sample_rate timecode = timecode * 1000000 % 2 ^ 64 / sample_rate

module _ (F : Float) (fir : List F.R → List F.R → List F.R) (sample_rate : ℕ) where
  open F use {R, lt, le, add, sub, mul, div, neg, lit, of_ℕ, to_ℕ, pow10}

  pub record Detection : Type 0 where
    pub timestamp : ℕ
    pub timecode : ℕ
    pub rssi : R

  pub record PassingPoint : Type 0 where
    pub weighted_timestamp : ℕ
    pub max_rssi : R
    pub duration : ℕ

  -- `a - b` and `a + b` of two `uint64_t`
  abbrev pub minus64 : ℕ → ℕ → ℕ
  minus64 a b = (a + 2 ^ 64 - b) % 2 ^ 64

  abbrev pub plus64 : ℕ → ℕ → ℕ
  plus64 a b = (a + b) % 2 ^ 64

  -- `std::max_element` by `rssi`: the first of the largest.
  unfoldable pub maximum_rssi : R → List Detection → R
  maximum_rssi m [] = m
  maximum_rssi m (d ∷ ds) = maximum_rssi (if lt m d.rssi then d.rssi else m) ds

  unfoldable pub weigh : R → ℕ → R → R → List Detection → R
  weigh threshold offset sum total [] = div sum total
  weigh threshold offset sum total (d ∷ ds) =
      let p = pow10 (div d.rssi (lit 20 0)) in
      let heavy = le threshold d.rssi in
      weigh threshold offset
        (if heavy then add sum (mul (of_ℕ (minus64 d.timecode offset)) p) else sum)
        (if heavy then add total p else total) ds

  -- The passing of the detections `d ∷ ds`.
  unfoldable pub weigthed_passing : Detection → List Detection → R → PassingPoint
  unfolding weigh timecode_to_usec
  weigthed_passing d ds max_rssi =
      let average = to_ℕ (weigh (sub max_rssi (lit 6 0)) d.timecode (lit 0 0) (lit 0 0) (d ∷ ds)) in
      record {
        weighted_timestamp = plus64 d.timestamp (timecode_to_usec sample_rate average);
        max_rssi = max_rssi;
        duration = 0;
      }

  -- `i / 128.0f` for `i` from `i` on, `n` of them.
  unfoldable pub grid : ℕ → ℕ → List R
  grid zero i = []
  grid (suc n) i = div (of_ℕ i) (lit 128 0) ∷ grid n (i + 1)

  unfoldable pub resamp_uniform : ℕ → ℕ → List Detection → List R
  unfolding grid
  resamp_uniform tc_min tc_diff detections =
      interp F (grid 129 0)
        (map (λ d. div (of_ℕ (minus64 d.timecode tc_min)) (of_ℕ tc_diff)) detections)
        (map (λ d. d.rssi) detections)

  -- The point between two waveform indices of the resampled grid.
  unfoldable pub between : ℕ → ℕ → ℕ → R → ℕ → PassingPoint
  unfolding timecode_to_usec
  between start tc_diff first max_rssi last =
      let pass_duration = minus64 last first * tc_diff % 2 ^ 64 / 128 in
      let center = plus64 (first * tc_diff % 2 ^ 64 / 128) (pass_duration / 2) in
      record {
        weighted_timestamp = plus64 start (timecode_to_usec sample_rate center);
        max_rssi = max_rssi;
        duration = timecode_to_usec sample_rate pass_duration;
      }

  -- `*std::max_element`
  unfoldable pub highest : R → List R → R
  highest m [] = m
  highest m (v ∷ y) = highest (larger F m v) y

  -- The fall-back: the middle of the span above the peak less 6 dB.
  unfoldable pub by_crossings : ℕ → ℕ → R → List R → PassingPoint
  unfolding timecode_to_usec highest
  by_crossings start tc_diff max_rssi y =
      let top = sub (highest (at F y 0) y) (lit 6 0) in
      let first = first_crossing F y top in
      let width = sub (last_crossing F y top) first in
      let center = to_ℕ (mul (div (add first (div width (lit 2 0))) (lit 128 0)) (of_ℕ tc_diff)) in
      record {
        weighted_timestamp = plus64 start (timecode_to_usec sample_rate center);
        max_rssi = max_rssi;
        duration = 0;
      }

  -- The second peak search, on the smoothed waveform.
  unfoldable pub by_peaks : ℕ → ℕ → R → List R → List (Peak F) → PassingPoint
  unfolding between by_crossings
  by_peaks start tc_diff max_rssi y [] = by_crossings start tc_diff max_rssi y
  by_peaks start tc_diff max_rssi y (p ∷ []) = by_crossings start tc_diff max_rssi y
  by_peaks start tc_diff max_rssi y (p ∷ q ∷ []) = between start tc_diff p.index max_rssi q.index
  by_peaks start tc_diff max_rssi y (p ∷ q ∷ r ∷ ps) = by_crossings start tc_diff max_rssi y

  -- The taps of `smoothing_fir`.
  abbrev pub smoothing_fir : List R
  smoothing_fir =
      lit 0 8
      ∷ lit 1320163 8
      ∷ lit 588375 7
      ∷ lit 12796555 8
      ∷ lit 19141461 8
      ∷ lit 21716141 8
      ∷ lit 19141461 8
      ∷ lit 12796555 8
      ∷ lit 588375 7
      ∷ lit 1320163 8
      ∷ lit 0 8
      ∷ []

  unfoldable pub by_smoothing : ℕ → ℕ → R → List R → PassingPoint
  by_smoothing start tc_diff max_rssi y =
      let smoothed = filtfilt F fir smoothing_fir y in
      by_peaks start tc_diff max_rssi smoothed (find_peaks F smoothed (lit 1 0))

  -- The branch on the dips: exactly three of them, or the smoothed waveform.
  unfoldable pub by_dips : ℕ → ℕ → R → List R → List (Peak F) → PassingPoint
  unfolding between
  by_dips start tc_diff max_rssi y [] = by_smoothing start tc_diff max_rssi y
  by_dips start tc_diff max_rssi y (p ∷ []) = by_smoothing start tc_diff max_rssi y
  by_dips start tc_diff max_rssi y (p ∷ q ∷ []) = by_smoothing start tc_diff max_rssi y
  by_dips start tc_diff max_rssi y (p ∷ q ∷ r ∷ []) = between start tc_diff p.index max_rssi r.index
  by_dips start tc_diff max_rssi y (p ∷ q ∷ r ∷ s ∷ ps) = by_smoothing start tc_diff max_rssi y

  -- The point for the detections `d ∷ ds`.
  unfoldable pub compute_passing_point : Detection → List Detection → PassingPoint
  compute_passing_point d ds =
      let max_rssi = maximum_rssi d.rssi ds in
      let tc_diff = minus64 (last_or ds d).timecode d.timecode in
      let y = resamp_uniform d.timecode tc_diff (d ∷ ds) in
      if ltb (length (d ∷ ds)) 16
      then weigthed_passing d ds max_rssi
      else by_dips d.timestamp tc_diff max_rssi y (find_peaks F (map neg y) (lit 3 0))

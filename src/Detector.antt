-- ===== src/Detector.antt =====
-- `FrameDetector` of src/frame.hpp and src/frame.cpp: the differential product of the samples, one
-- correlator for each of the positions of a sample in its symbol, the order in which the protocols
-- are tried, and the statistics of the noise.
pub mod Lanes
pub mod Strongest
use openstint.Base.{
  Bool, List, Option, [], if◌then◌else◌, ltb, none, replicate, some, suc, zero, ℕ, ◌%◌, ◌*◌, ◌+◌,
  ◌-◌, ◌^◌, ◌∷◌,
}
use openstint.Base.Int.{ℤ, pos, negsuc, ◌+ℤ◌, ◌-ℤ◌, ◌*ℤ◌, ltb_ℤ, quot, abs_ℕ}
use openstint.Float.{Float}
use openstint.Transponder.{TransponderProtocol, open_stint, rc3, rc4, transponder_props}
use openstint.Correlator.{CircBuff, new_buff, push, clear_next, match_preamble, calc_metric, of_ℤ}

-- A complex number of two integers. The samples are 8-bit, so no `int32_t` below wraps but the
-- sums over the whole stream, which are reset with the statistics.
pub record Complex : Type 0 where
  pub re : ℤ
  pub im : ℤ

abbrev pub origin : Complex
origin = record { re = pos 0; im = pos 0 }

abbrev pub minus : Complex → Complex → Complex
minus a b = record { re = a.re -ℤ b.re; im = a.im -ℤ b.im }

abbrev pub plus : Complex → Complex → Complex
plus a b = record { re = a.re +ℤ b.re; im = a.im +ℤ b.im }

-- `std::real(a * std::conj(b))`
unfoldable pub product_real : Complex → Complex → ℤ
product_real a b = a.re *ℤ b.re +ℤ a.im *ℤ b.im

-- `std::norm`
unfoldable pub norm : Complex → ℕ
norm a = abs_ℕ a.re * abs_ℕ a.re + abs_ℕ a.im * abs_ℕ a.im

-- `std::clamp(x, INT16_MIN, INT16_MAX)`
unfoldable pub clamp16 : ℤ → ℤ
clamp16 x =
    if ltb_ℤ x (negsuc 32767) then negsuc 32767 else if ltb_ℤ (pos 32767) x then pos 32767 else x

-- What the detector keeps for one position: `last_samples[i]` and `buffers[i]`.
pub record Lane : Type 0 where
  pub last_sample : Complex
  pub buffer : CircBuff

unfoldable pub feed : Complex → Lane → Lane
feed r lane =
    let zr = clamp16 (product_real r lane.last_sample) in
    record { last_sample = r; buffer = push zr (abs_ℕ zr * abs_ℕ zr) lane.buffer }

-- The loops over the positions; `none` is a read past the end of the samples.
unfoldable pub feed_all : Complex → List Complex → List Lane → Option (List Lane)
feed_all offset samples [] = some []
feed_all offset [] (lane ∷ lanes) = none
feed_all offset (s ∷ samples) (lane ∷ lanes) = elim (feed_all offset samples lanes) [
  | none ↦ none
  | some rest ↦ some (feed (minus s offset) lane ∷ rest)
]

-- `wes[i]`, a `uint32_t`.
abbrev pub energy_of : Lane → ℕ
energy_of lane = lane.buffer.window_energy % 2 ^ 32

-- `std::max_element` over `wes`, from the index `i` on: the first of the largest. `best` is the
-- index of the largest so far.
unfoldable pub strongest : ℕ → ℕ → ℕ → List Lane → ℕ
strongest best top i [] = best
strongest best top i (lane ∷ lanes) =
    let greater = ltb top (energy_of lane) in
    strongest (if greater then i else best) (if greater then energy_of lane else top) (i + 1) lanes

-- The buffer at an index, changed.
unfoldable pub set_buffer : ℕ → CircBuff → List Lane → List Lane
set_buffer i b [] = []
set_buffer zero b (lane ∷ lanes) = record lane { buffer = b } ∷ lanes
set_buffer (suc i) b (lane ∷ lanes) = lane ∷ set_buffer i b lanes

unfoldable pub buffer_at : ℕ → List Lane → CircBuff
buffer_at i [] = new_buff
buffer_at zero (lane ∷ lanes) = lane.buffer
buffer_at (suc i) (lane ∷ lanes) = buffer_at i lanes

module _ (F : Float) where
  open F use {R, mul, div, lit, of_ℕ}

  pub record FrameDetector : Type 0 where
    pub lanes : List Lane
    pub offset : Complex
    pub offset_hires : R × R
    pub variance : R
    pub s1 : Complex
    pub s2 : ℕ
    pub n : ℕ

  abbrev pub new_frame_detector : ℕ → FrameDetector
  new_frame_detector samples_per_symbol = record {
    lanes = replicate samples_per_symbol (record { last_sample = origin; buffer = new_buff });
    offset = origin;
    offset_hires = (lit 0 0, lit 0 0);
    variance = lit 0 0;
    s1 = origin;
    s2 = 0;
    n = 0;
  }

  -- `p_rc4` has the whole threshold, the other two that of 15 bits.
  abbrev pub threshold : TransponderProtocol → R
  threshold rc4 = lit 78 2
  threshold open_stint = mul (lit 78 2) (div (lit 15 0) (lit 16 0))
  threshold rc3 = mul (lit 78 2) (div (lit 15 0) (lit 16 0))

  abbrev pub matched : TransponderProtocol → CircBuff → Bool
  matched p b = match_preamble F (transponder_props p).dpsk_preamble (threshold p) b

  abbrev pub result : TransponderProtocol → CircBuff → Option (TransponderProtocol × R)
  result p b = some (p, calc_metric F (transponder_props p).dpsk_preamble b)

  -- The chain of tests over the chosen buffer, beside the buffer as they leave it.
  unfoldable pub match_protocols : CircBuff → Option (TransponderProtocol × R) × CircBuff
  match_protocols b =
      let cleared = clear_next b in
      if matched rc4 b
      then (result rc4 b, b)
      else if matched open_stint cleared
      then (result open_stint cleared, cleared)
      else if matched rc3 cleared
      then (result rc3 cleared, cleared)
      else (none, cleared)

  -- `process_baseband` after the samples went into the buffers. `first` is `samples[0]`.
  unfoldable pub detect_in :
      Complex → List Lane → FrameDetector → Option (TransponderProtocol × R) × FrameDetector
  unfolding match_protocols
  detect_in first lanes d =
      let idx = strongest 0 0 0 lanes in
      let (found, b) = match_protocols (buffer_at idx lanes) in
      (
        found,
        record d {
          lanes = set_buffer idx b lanes;
          s1 = plus d.s1 first;
          s2 = (d.s2 + norm (minus first d.offset)) % 2 ^ 32;
          n = d.n + 1;
        },
      )

  unfoldable pub process_baseband :
      List Complex → FrameDetector → Option (Option (TransponderProtocol × R) × FrameDetector)
  process_baseband [] d = none
  process_baseband (first ∷ samples) d = elim (feed_all d.offset (first ∷ samples) d.lanes) [
    | none ↦ none
    | some lanes ↦ some (detect_in first lanes d)
  ]

  unfoldable pub reset_statistics_counters : FrameDetector → FrameDetector
  reset_statistics_counters d = record d { s1 = origin; s2 = 0; n = 0 }

  -- The mean of 8-bit samples fits the 8 bits to which it is cast.
  unfoldable pub update_statistics : FrameDetector → FrameDetector
  unfolding reset_statistics_counters
  update_statistics d =
      let means = record d {
        offset = record { re = quot d.s1.re d.n; im = quot d.s1.im d.n };
        offset_hires = (div (of_ℤ F d.s1.re) (of_ℕ d.n), div (of_ℤ F d.s1.im) (of_ℕ d.n));
        variance = div (of_ℕ d.s2) (of_ℕ (d.n - 1));
      } in
      if ltb 4096 d.n then reset_statistics_counters means else d

  -- The largest of the energies, as `uint32_t`.
  unfoldable pub max_energy : ℕ → List Lane → ℕ
  max_energy top [] = top
  max_energy top (lane ∷ lanes) =
      max_energy (if ltb top lane.buffer.window_energy then energy_of lane else top) lanes

  unfoldable pub symbol_energy : FrameDetector → R
  unfolding max_energy
  symbol_energy d = div (of_ℕ (max_energy 0 d.lanes)) (lit 16 0)

-- ===== src/Passing/Point/Bounds.antt =====
-- A passing point that is taken between two peaks lies within the detections.
use native.Mathlib.Nat.{div-mul-le_self, lt-div-mul-add}
use native.Mathlib.Decide.{dec_lt}
use openstint.Base.{List, arith, ℕ, ◌%◌, ◌*◌, ◌+◌, ◌-◌, ◌/◌, ◌<◌, ◌^◌, ◌≡◌, ◌≤◌}
use openstint.Float.{Float}
use openstint.Passing.Point.{timecode_to_usec, between}

mul_mono : (a b r : ℕ) → a ≤ b → a * r ≤ b * r
mul_mono a b r h = grind arith

div_mono : (r a b : ℕ) → 0 < r → a ≤ b → a / r ≤ b / r
div_mono r a b hr h = elim (dec_lt (b / r) (a / r)) [
  | yes p ↦ absurd (
      omega (
        arith,
        mul_mono (b / r + 1) (a / r) r (omega arith),
        div-mul-le_self a r,
        lt-div-mul-add {a = b} {b = r} hr,
      ))
  | no p ↦ omega arith
]

usec_mono :
    (rate a b : ℕ)
    → 0 < rate
    → a ≤ b
    → b < 2 ^ 43
    → timecode_to_usec rate a ≤ timecode_to_usec rate b
unfolding timecode_to_usec
usec_mono rate a b hr h small =
    let ea : a * 1000000 % 2 ^ 64 ≡ a * 1000000 = omega arith in
    let eb : b * 1000000 % 2 ^ 64 ≡ b * 1000000 = omega arith in
    rw (ea, eb) (div_mono rate (a * 1000000) (b * 1000000) hr (omega arith))

usec-le : (rate a : ℕ) → 0 < rate → timecode_to_usec rate a ≤ a * 1000000 % 2 ^ 64
unfolding timecode_to_usec
usec-le rate a hr =
    let b : ℕ = a * 1000000 % 2 ^ 64 in
    omega (arith, div-mul-le_self b rate, mul_mono 1 rate (b / rate) hr)

module _ (F : Float) (fir : List F.R → List F.R → List F.R) (sample_rate : ℕ) where
  -- Between two indices of the grid, the earlier first, the passing point lies between the first
  -- detection and the end of the span, and the duration is at most the span, as long as the span is
  -- below 2^43 samples and the timestamps do not reach 2^63.
  pub between-bounds :
      (start span first last : ℕ) (rssi : F.R)
      → 0 < sample_rate
      → first ≤ last
      → last ≤ 128
      → span < 2 ^ 43
      → start < 2 ^ 63
      → let p = between F fir sample_rate start span first rssi last in
        (start ≤ p.weighted_timestamp)
        × (p.weighted_timestamp ≤ start + timecode_to_usec sample_rate span)
        × (p.duration ≤ timecode_to_usec sample_rate span)
  unfolding between
  between-bounds start span first last rssi hr hf hl hs ht =
      let width : (last + 2 ^ 64 - first) % 2 ^ 64 ≡ last - first = omega arith in
      let m1 = mul_mono first 128 span (omega arith) in
      let m2 = mul_mono (last - first) 128 span (omega arith) in
      let e1 : first * span % 2 ^ 64 ≡ first * span = omega arith in
      let e2 : (last - first) * span % 2 ^ 64 ≡ (last - first) * span = omega arith in
      let duration : ℕ = (last - first) * span / 128 in
      let offset : ℕ = first * span / 128 in
      let both : first * span + (last - first) * span ≤ 128 * span =
        omega (arith, mul_mono (first + (last - first)) 128 span (omega arith)) in
      let center : (offset + duration / 2) % 2 ^ 64 ≤ span = omega arith in
      let u1 = usec_mono sample_rate ((offset + duration / 2) % 2 ^ 64) span hr center hs in
      let u2 = usec_mono sample_rate duration span hr (omega arith) hs in
      let u3 = usec-le sample_rate span hr in rw (width, e1, e2) (omega arith, omega arith, u2)

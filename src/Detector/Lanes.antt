-- ===== src/Detector/Lanes.antt =====
-- The buffers of `FrameDetector` of src/frame.cpp over any stream of samples.
use native.Mathlib.Nat.{mul-le-mul}
use openstint.Base.{
  All, Bool, Bool-cases, List, Option, [], ap, arith, false, if◌then◌else◌, inl, inr, length, ltb,
  none, refl, some, subst, suc, sym, true, zero, ℕ, ◌*◌, ◌<◌, ◌^◌, ◌∙◌, ◌∷◌, ◌≡◌, ◌≤◌,
}
use openstint.Base.Int.{ℤ, pos, abs_ℕ}
use openstint.Float.{Float}
use openstint.Transponder.{TransponderProtocol, open_stint, rc3, rc4}
use openstint.Correlator.{CircBuff, new_buff, clear_next}
use openstint.Correlator.Window.{IsValid, push-IsValid, clear_next-IsValid, sum}
use openstint.Detector.{
  Complex, Lane, feed, feed_all, clamp16, product_real, minus, set_buffer, buffer_at, strongest,
  FrameDetector, new_frame_detector, match_protocols, detect_in, process_baseband,
  update_statistics, reset_statistics_counters, matched,
}

clamp16-le : (x : ℤ) → abs_ℕ (clamp16 x) ≤ 32768
unfolding clamp16
clamp16-le (pos n) = ground arith
clamp16-le (openstint.Base.Int.negsuc n) = ground arith

square-lt : (a : ℕ) → a ≤ 32768 → a * a < 2 ^ 32
square-lt a h = omega (arith, mul-le-mul h h)

abbrev pub AreValid : List Lane → Type 0
AreValid = All (λ (lane : Lane). IsValid lane.buffer)

new_buff-IsValid : IsValid new_buff
unfolding sum
new_buff-IsValid = record {
  phase_in = omega arith;
  symbols = refl;
  energies = refl;
  small = omega arith;
  summed = refl;
}

feed-IsValid : (r : Complex) (lane : Lane) → IsValid lane.buffer → IsValid (feed r lane).buffer
unfolding feed
feed-IsValid r lane v =
    push-IsValid _ _ lane.buffer (square-lt _ (clamp16-le (product_real r lane.last_sample))) v

feed_all-AreValid :
    (offset : Complex) (samples : List Complex) (lanes : List Lane)
    → length lanes ≤ length samples
    → AreValid lanes
    → (fed : List Lane) × (feed_all offset samples lanes ≡ some fed)
      × AreValid fed
      × (length fed ≡ length lanes)
unfolding feed_all
feed_all-AreValid offset samples [] h v = ([], refl, tt, refl)
feed_all-AreValid offset [] (lane ∷ lanes) h v = absurd (omega arith)
feed_all-AreValid offset (s ∷ samples) (lane ∷ lanes) h v =
    let (rest, e, valid, same) = feed_all-AreValid offset samples lanes (omega arith) v.1 in
    (
      feed (minus s offset) lane ∷ rest,
      rw e refl,
      (feed-IsValid (minus s offset) lane v.0, valid),
      omega (arith, same),
    )

set_buffer-AreValid :
    (i : ℕ) (b : CircBuff) (lanes : List Lane)
    → IsValid b
    → AreValid lanes
    → AreValid (set_buffer i b lanes) × (length (set_buffer i b lanes) ≡ length lanes)
unfolding set_buffer
set_buffer-AreValid i b [] vb v = (tt, refl)
set_buffer-AreValid zero b (lane ∷ lanes) vb v = ((vb, v.1), refl)
set_buffer-AreValid (suc i) b (lane ∷ lanes) vb v =
    let (valid, same) = set_buffer-AreValid i b lanes vb v.1 in ((v.0, valid), ap suc same)

buffer_at-IsValid : (i : ℕ) (lanes : List Lane) → AreValid lanes → IsValid (buffer_at i lanes)
unfolding buffer_at
buffer_at-IsValid i [] v = new_buff-IsValid
buffer_at-IsValid zero (lane ∷ lanes) v = v.0
buffer_at-IsValid (suc i) (lane ∷ lanes) v = buffer_at-IsValid i lanes v.1

if-IsValid :
    (F : Float) (c : Bool) (x y : Option (TransponderProtocol × F.R) × CircBuff)
    → IsValid x.1
    → IsValid y.1
    → IsValid (if c then x else y).1
if-IsValid F true x y vx vy = vx
if-IsValid F false x y vx vy = vy

module _ (F : Float) where
  match_protocols-IsValid : (b : CircBuff) → IsValid b → IsValid (match_protocols F b).1
  unfolding match_protocols
  match_protocols-IsValid b v =
      let cleared = clear_next-IsValid b v in
      if-IsValid F (matched F rc4 b) _ _ v (
        if-IsValid F (matched F open_stint (clear_next b)) _ _ cleared
          (if-IsValid F (matched F rc3 (clear_next b)) _ _ cleared cleared))

  -- All buffers valid, and `n` of them.
  pub record IsSound (n : ℕ) (d : FrameDetector F) : Type 0 where
    pub valid : AreValid d.lanes
    pub count : length d.lanes ≡ n

  abbrev Out : Type 0
  Out = Option (TransponderProtocol × F.R) × FrameDetector F

  detect_in-IsSound :
      (first : Complex) (n : ℕ) (fed : List Lane) (d : FrameDetector F)
      → AreValid fed
      → length fed ≡ n
      → IsSound n (detect_in F first fed d).1
  unfolding detect_in
  detect_in-IsSound first n fed d valid count =
      let idx = strongest 0 0 0 fed in
      let chosen = match_protocols-IsValid (buffer_at idx fed) (buffer_at-IsValid idx fed valid) in
      let (after, kept) =
        set_buffer-AreValid idx (match_protocols F (buffer_at idx fed)).1 fed chosen valid in
      record { valid = after; count = kept ∙ count }

  pub process_baseband_within :
      (n : ℕ) (samples : List Complex) (d : FrameDetector F)
      → 1 ≤ n
      → n ≤ length samples
      → IsSound n d
      → (out : Option (TransponderProtocol × F.R) × FrameDetector F) × (process_baseband F samples d
          ≡ some out)
        × IsSound n out.1
  unfolding process_baseband
  process_baseband_within n [] d h k v = absurd (omega arith)
  process_baseband_within n (first ∷ samples) d h k v =
      let (fed, e, valid, same) =
        feed_all-AreValid d.offset (first ∷ samples) d.lanes (omega (arith, v.count)) v.valid in
      (
        detect_in F first fed d,
        ap
            (λ o. elim o as (λ x. Option Out) [
              | none ↦ none
              | some lanes ↦ some (detect_in F first lanes d)
            ])
            e,
        detect_in-IsSound first n fed d valid (same ∙ v.count),
      )

  -- On a symbol with a sample for each of its buffers the detector always answers, and leaves all of
  -- them valid: the energies stay exact sums, also after the oldest symbol was cleared for the two
  -- protocols whose first bit varies.
  pub process_baseband-IsSound :
      (samples : List Complex) (d : FrameDetector F)
      → 1 ≤ length samples
      → IsSound (length samples) d
      → (out : Option (TransponderProtocol × F.R) × FrameDetector F) × (process_baseband F samples d
          ≡ some out)
        × IsSound (length samples) out.1
  process_baseband-IsSound samples d h v =
      process_baseband_within (length samples) samples d h (omega arith) v

  -- What the sample loop calls: a symbol of four samples, or an update or reset of the statistics
  -- between two buffers.
  pub data Call : Type 0 where
    reads : Complex → Complex → Complex → Complex → Call
    updates : Call
    resets : Call

  unfoldable pub step : Call → FrameDetector F → Option (FrameDetector F)
  step (reads a b c e) d = elim (process_baseband F (a ∷ b ∷ c ∷ e ∷ []) d) [
    | none ↦ none
    | some out ↦ some out.1
  ]
  step updates d = some (update_statistics F d)
  step resets d = some (reset_statistics_counters F d)

  unfoldable pub run : List Call → FrameDetector F → Option (FrameDetector F)
  run [] d = some d
  run (c ∷ cs) d = elim (step c d) [ none ↦ none | some d' ↦ run cs d' ]

  update_statistics-lanes : (d : FrameDetector F) → (update_statistics F d).lanes ≡ d.lanes
  unfolding update_statistics reset_statistics_counters
  update_statistics-lanes d = elim (Bool-cases (ltb 4096 d.n)) [
    | inl full ↦ rw full refl
    | inr few ↦ rw few refl
  ]

  pub update_statistics-IsSound :
      (d : FrameDetector F) → IsSound 4 d → IsSound 4 (update_statistics F d)
  update_statistics-IsSound d v = record {
    valid = subst AreValid (sym (update_statistics-lanes d)) v.valid;
    count = ap length (update_statistics-lanes d) ∙ v.count;
  }

  pub reset_statistics_counters-IsSound :
      (d : FrameDetector F) → IsSound 4 d → IsSound 4 (reset_statistics_counters F d)
  unfolding reset_statistics_counters
  reset_statistics_counters-IsSound d v = record { valid = v.valid; count = v.count }

  step-IsSound :
      (c : Call) (d : FrameDetector F)
      → IsSound 4 d
      → (d' : FrameDetector F) × (step c d ≡ some d') × IsSound 4 d'
  unfolding step
  step-IsSound (reads a b c e) d v =
      let (out, answers, sound) = process_baseband-IsSound (a ∷ b ∷ c ∷ e ∷ []) d (omega arith) v in
      (
        out.1,
        ap (λ o. elim o as (λ x. Option (FrameDetector F)) [ none ↦ none | some p ↦ some p.1 ])
            answers,
        sound,
      )
  step-IsSound updates d v = (update_statistics F d, refl, update_statistics-IsSound d v)
  step-IsSound resets d v =
      (reset_statistics_counters F d, refl, reset_statistics_counters-IsSound d v)

  run-IsSound :
      (cs : List Call) (d : FrameDetector F)
      → IsSound 4 d
      → (d' : FrameDetector F) × (run cs d ≡ some d') × IsSound 4 d'
  unfolding run
  run-IsSound [] d v = (d, refl, v)
  run-IsSound (c ∷ cs) d v =
      let (d', e, sound) = step-IsSound c d v in
      let (end, e', done) = run-IsSound cs d' sound in
      (
        end,
        ap (λ o. elim o as (λ x. Option (FrameDetector F)) [ none ↦ none | some p ↦ run cs p ]) e
            ∙ e',
        done,
      )

  pub new_frame_detector-IsSound : IsSound 4 (new_frame_detector F 4)
  new_frame_detector-IsSound =
      let v = new_buff-IsValid in record { valid = (v, (v, (v, (v, tt)))); count = refl }

  -- Any sequence of symbols, updates and resets from the new detector with four samples to a symbol
  -- comes to an end, with all four circular buffers valid.
  pub run-new_frame_detector :
      (cs : List Call)
      → (d : FrameDetector F) × (run cs (new_frame_detector F 4) ≡ some d) × IsSound 4 d
  run-new_frame_detector cs = run-IsSound cs (new_frame_detector F 4) new_frame_detector-IsSound

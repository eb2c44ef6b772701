-- ===== src/Passing/Detector/Reports.antt =====
-- What `identify_passings` reports and what it leaves in the map.
use mathlib.Core.List.{append-nil}
use openstint.Base.{
  Above, Above-IsOrdered, Above-mono, Bool, Bool-cases, IsOrdered, List, Map, Option, [], ap, arith,
  contains, erase, false, find, find-erase, if◌then◌else◌, inl, inr, keep_if, leb, length, none,
  refl, some, subst, ℕ, ◌&&◌, ◌++◌, ◌∷◌, ◌≡◌, ℕ_key,
}
use openstint.Float.{Float}
use openstint.Passing.System.{
  TransponderKey, transponder_key, same_key_iff, same_key, before_key_irrefl,
}
use openstint.Passing.Detector.{
  Detections, PassingDetector, Passing, is_over, erasable, passing_of, collect, create_passing,
  erase_all, identify_passings,
}

module _ (F : Float) (fir : List F.R → List F.R → List F.R) (sample_rate : ℕ) where
  abbrev Table : Type 0
  Table = Map TransponderKey (Detections F fir sample_rate)

  -- What is left of an entry after the report.
  abbrev pub unless_over :
      ℕ → Option (Detections F fir sample_rate) → Option (Detections F fir sample_rate)
  unless_over deadline none = none
  unless_over deadline (some ds) = if is_over F fir sample_rate deadline ds then none else some ds

  abbrev pub over_entry : ℕ → Option (Detections F fir sample_rate) → Bool
  over_entry deadline none = false
  over_entry deadline (some ds) = is_over F fir sample_rate deadline ds

  find-erase_all :
      (k : TransponderKey) (keys : List TransponderKey) (m : Table)
      → find k (erase_all F fir sample_rate keys m) ≡ (if contains k keys then none else find k m)
  unfolding erase_all contains
  find-erase_all k [] m = refl
  find-erase_all k (key ∷ keys) m =
      ground (arith, find-erase_all k keys (erase key m), find-erase k key m)

  erasable-Above :
      (k : TransponderKey) (deadline : ℕ) (m : Table)
      → Above k m
      → contains k (erasable F fir sample_rate deadline m) ≡ false
  unfolding erasable contains
  erasable-Above k deadline [] a = refl
  erasable-Above k deadline ((j, ds) ∷ m) a = ground (
    arith,
    before_key_irrefl k,
    same_key_iff j k,
    erasable-Above k deadline m (Above-mono k j m a.0 a.1),
  )

  contains-erasable :
      (k : TransponderKey) (deadline : ℕ) (m : Table)
      → IsOrdered m
      → contains k (erasable F fir sample_rate deadline m) ≡ over_entry deadline (find k m)
  unfolding erasable contains find
  contains-erasable k deadline [] a = refl
  contains-erasable k deadline ((j, ds) ∷ m) a = ground (
    arith,
    same_key_iff j k,
    contains-erasable k deadline m (Above-IsOrdered j m a),
    erasable-Above j deadline m a,
  )

  -- After the report an entry whose last detection is not after the deadline is gone, and every other
  -- entry is as it was.
  pub find-identify_passings :
      (k : TransponderKey) (deadline : ℕ) (p : PassingDetector F fir sample_rate)
      → IsOrdered p.detections
      → find k (identify_passings F fir sample_rate deadline p).1.detections
        ≡ unless_over deadline (find k p.detections)
  unfolding identify_passings
  find-identify_passings k deadline p o =
      let e = find-erase_all k (erasable F fir sample_rate deadline p.detections) p.detections in
      let c = contains-erasable k deadline p.detections o in ground (arith, e, c)

  -- The passings of one key in a report.
  abbrev pub reports_of :
      TransponderKey → List (Passing F fir sample_rate) → List (Passing F fir sample_rate)
  reports_of k = keep_if (λ p. same_key p.key k)

  abbrev pub at_most_one : Option (Passing F fir sample_rate) → List (Passing F fir sample_rate)
  at_most_one none = []
  at_most_one (some p) = p ∷ []

  -- What the detections of a key call for: a passing if there are at least two and the last is not
  -- after the deadline, and nothing otherwise.
  abbrev pub due :
      ℕ → TransponderKey → Option (Detections F fir sample_rate) → List (Passing F fir sample_rate)
  due deadline k none = []
  due deadline k (some []) = []
  due deadline k (some (d ∷ ds)) =
      if is_over F fir sample_rate deadline (d ∷ ds) && leb 2 (length (d ∷ ds))
      then create_passing F fir sample_rate k d ds ∷ []
      else []

  reports-passing_of :
      (k : TransponderKey) (deadline : ℕ) (ds : Detections F fir sample_rate)
      → at_most_one (passing_of F fir sample_rate deadline k ds) ≡ due deadline k (some ds)
  unfolding passing_of create_passing
  reports-passing_of k deadline [] = refl
  reports-passing_of k deadline (d ∷ ds) = ground arith

  key-passing_of :
      (j k : TransponderKey) (deadline : ℕ) (ds : Detections F fir sample_rate)
      → reports_of k (at_most_one (passing_of F fir sample_rate deadline j ds))
        ≡ (if same_key j k then at_most_one (passing_of F fir sample_rate deadline j ds) else [])
  unfolding passing_of create_passing
  key-passing_of j k deadline [] = ground arith
  key-passing_of j k deadline (d ∷ ds) = ground arith

  collect-cons :
      (j : TransponderKey) (deadline : ℕ) (ds : Detections F fir sample_rate) (m : Table)
      → collect F fir sample_rate deadline ((j, ds) ∷ m)
        ≡ at_most_one (passing_of F fir sample_rate deadline j ds)
          ++ collect F fir sample_rate deadline m
  unfolding collect
  collect-cons j deadline ds m = ground arith

  pub reports_of-append :
      (k : TransponderKey) (ps qs : List (Passing F fir sample_rate))
      → reports_of k (ps ++ qs) ≡ reports_of k ps ++ reports_of k qs
  reports_of-append k [] qs = refl
  reports_of-append k (p ∷ ps) qs = ground (arith, reports_of-append k ps qs)

  reports_of-cons :
      (j k : TransponderKey) (deadline : ℕ) (ds : Detections F fir sample_rate) (m : Table)
      → reports_of k (collect F fir sample_rate deadline ((j, ds) ∷ m))
        ≡ (if same_key j k then due deadline j (some ds) else [])
          ++ reports_of k (collect F fir sample_rate deadline m)
  reports_of-cons j k deadline ds m = rw (
    collect-cons j deadline ds m,
    reports_of-append k (at_most_one (passing_of F fir sample_rate deadline j ds))
        (collect F fir sample_rate deadline m),
    key-passing_of j k deadline ds,
    reports-passing_of j deadline ds,
  )

  reports-Above :
      (k : TransponderKey) (deadline : ℕ) (m : Table)
      → Above k m
      → reports_of k (collect F fir sample_rate deadline m) ≡ []
  reports-Above k deadline [] a = unfold collect in refl
  reports-Above k deadline ((j, ds) ∷ m) a = ground (
    arith,
    before_key_irrefl k,
    same_key_iff j k,
    reports_of-cons j k deadline ds m,
    reports-Above k deadline m (Above-mono k j m a.0 a.1),
  )

  reports-collect :
      (k : TransponderKey) (deadline : ℕ) (m : Table)
      → IsOrdered m
      → reports_of k (collect F fir sample_rate deadline m) ≡ due deadline k (find k m)
  unfolding find
  reports-collect k deadline [] a = unfold collect in refl
  reports-collect k deadline ((j, ds) ∷ m) a = elim (Bool-cases (same_key j k)) [
    | inl same ↦
        let e : j ≡ k = (same_key_iff j k).0 same in
        let none_left = reports-Above k deadline m (subst (λ i. Above i m) e a) in
        rw (reports_of-cons j k deadline ds m, same, none_left, append-nil)
          (ap (λ i. due deadline i (some ds)) e)
    | inr other ↦
        rw (reports_of-cons j k deadline ds m, other)
          (reports-collect k deadline m (Above-IsOrdered j m a))
  ]

  -- A report has for each key the one passing that its detections call for, made from all of them,
  -- or none: one is due if the key has at least two detections, the last of them not after the
  -- deadline.
  pub reports-identify_passings :
      (k : TransponderKey) (deadline : ℕ) (p : PassingDetector F fir sample_rate)
      → IsOrdered p.detections
      → reports_of k (identify_passings F fir sample_rate deadline p).0
        ≡ due deadline k (find k p.detections)
  unfolding identify_passings
  reports-identify_passings k deadline p o = reports-collect k deadline p.detections o

-- ===== src/Passing/Waveform/Peaks.antt =====
-- What `find_peaks` returns, with no law of the floating-point numbers assumed.
use openstint.Base.{
  Bool, List, [], if◌then◌else◌, keep_if, length, map, suc, true, zero, ℕ, ◌&&◌, ◌+◌, ◌-◌, ◌<◌, ◌∷◌,
  ◌≡◌, ◌≤◌, ℕ_key,
}
use openstint.Float.{Float}
use openstint.Passing.Waveform.{at, Peak, is_maximum, smaller, larger, with_prominence}

module _ (F : Float) where
  open F use {R, lt, le, sub}

  -- The samples from an index down to 1, and `n` samples from an index on.
  abbrev pub leftwards : ℕ → List R → List R
  leftwards zero y = []
  leftwards (suc j) y = at F y (suc j) ∷ leftwards j y

  abbrev pub rightwards : ℕ → ℕ → List R → List R
  rightwards zero j y = []
  rightwards (suc n) j y = at F y j ∷ rightwards n (j + 1) y

  -- The samples up to the first that is higher than the peak, with it.
  unfoldable pub until_higher : R → List R → List R
  until_higher value [] = []
  until_higher value (a ∷ rest) = if lt value a then a ∷ [] else a ∷ until_higher value rest

  unfoldable pub lowest : R → List R → R
  lowest low [] = low
  lowest low (a ∷ rest) = lowest (smaller F low a) rest

  -- How far a peak stands above the higher one of its two bases, each the lowest sample on its side
  -- up to a higher peak or the end.
  unfoldable pub prominence_at : List R → ℕ → R
  prominence_at y i =
      let value = at F y i in
      sub value (
        larger F (lowest value (until_higher value (leftwards i y)))
          (lowest value (until_higher value (rightwards (length y - i) i y))))

  -- The peaks lie at or after `low` and before `high`, each further on than the last, and each is a
  -- strict local maximum of `y` with its value and prominence, which is at least as asked for.
  abbrev pub ArePeaks : List R → R → ℕ → ℕ → List (Peak F) → Type 0
  ArePeaks y least low high [] = Unit {0}
  ArePeaks y least low high (p ∷ ps) =
      (low ≤ p.index)
      × (p.index < high)
      × (is_maximum F y p.index ≡ true)
      × (p.value ≡ at F y p.index)
      × (p.prominence ≡ prominence_at y p.index)
      × (le least p.prominence ≡ true)
      × ArePeaks y least (p.index + 1) high ps

  abbrev peak_at : List R → ℕ → Peak F
  peak_at y i = record { index = i; value = at F y i; prominence = prominence_at y i }

  pass : R → List R → List (Peak F) → List (Peak F)
  pass least y ps = keep_if (λ p. le least p.prominence) (map (with_prominence F y) ps)

  abbrev found : List R → R → ℕ → Bool
  found y least i = is_maximum F y i && le least (prominence_at y i)

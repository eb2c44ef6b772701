-- ===== src/Detector/Strongest.antt =====
-- Which buffer `FrameDetector::process_baseband` of src/frame.cpp looks at.
use mathlib.Core.List.{append_assoc, append-nil}
use native.Mathlib.Decide.{dec_lt}
use openstint.Base.{
  Bool-cases, List, [], arith, get_or, if◌then◌else◌, inl, inr, length, length-append, ltb, map,
  refl, subst, suc, sym, zero, ℕ, ◌++◌, ◌+◌, ◌<◌, ◌∙◌, ◌∷◌, ◌≡◌, ◌≤◌,
}
use openstint.Detector.{Lane, energy_of, strongest}

-- The index of the first of the largest entries: no entry is larger, and every earlier one is smaller.
pub record IsFirstLargest (idx : ℕ) (xs : List ℕ) : Type 0 where
  pub inside : idx < length xs
  pub largest : (j : ℕ) → get_or xs j 0 ≤ get_or xs idx 0
  pub earlier : (j : ℕ) → j < idx → get_or xs j 0 < get_or xs idx 0

get_or-before : (xs : List ℕ) (e j : ℕ) → j < length xs → get_or (xs ++ e ∷ []) j 0 ≡ get_or xs j 0
get_or-before [] e j h = absurd (omega arith)
get_or-before (x ∷ xs) e zero h = refl
get_or-before (x ∷ xs) e (suc j) h = get_or-before xs e j (omega arith)

get_or-at : (xs : List ℕ) (e : ℕ) → get_or (xs ++ e ∷ []) (length xs) 0 ≡ e
get_or-at [] e = refl
get_or-at (x ∷ xs) e = get_or-at xs e

get_or-after : (xs : List ℕ) (j : ℕ) → length xs ≤ j → get_or xs j 0 ≡ 0
get_or-after [] j h = refl
get_or-after (x ∷ xs) zero h = absurd (omega arith)
get_or-after (x ∷ xs) (suc j) h = get_or-after xs j (omega arith)

-- An entry that is not larger than the largest.
keep_largest :
    (best e : ℕ) (xs : List ℕ)
    → e ≤ get_or xs best 0
    → IsFirstLargest best xs
    → IsFirstLargest best (xs ++ e ∷ [])
keep_largest best e xs small v = record {
  inside = omega (arith, v.inside, length-append xs (e ∷ []));
  largest = λ j. elim (dec_lt j (length xs)) [
    | yes h ↦ omega (arith, get_or-before xs e j h, get_or-before xs e best v.inside, v.largest j)
    | no h ↦ elim (dec_lt (length xs) j) [
      | yes h' ↦
          omega (arith, get_or-after (xs ++ e ∷ []) j (omega (arith, length-append xs (e ∷ []))))
      | no h' ↦
          let same : j ≡ length xs = omega arith in
          subst (λ i. get_or (xs ++ e ∷ []) i 0 ≤ get_or (xs ++ e ∷ []) best 0) (sym same)
            (omega (arith, get_or-at xs e, get_or-before xs e best v.inside))
    ]
  ];
  earlier = λ j h. omega (
    arith,
    get_or-before xs e j (omega (arith, v.inside)),
    get_or-before xs e best v.inside,
    v.earlier j h,
  );
}

new_largest :
    (e top : ℕ) (xs : List ℕ)
    → top < e
    → ((j : ℕ) → get_or xs j 0 ≤ top)
    → IsFirstLargest (length xs) (xs ++ e ∷ [])
new_largest e top xs more below = record {
  inside = omega (arith, length-append xs (e ∷ []));
  largest = λ j. elim (dec_lt j (length xs)) [
    | yes h ↦ omega (arith, get_or-before xs e j h, get_or-at xs e, below j)
    | no h ↦ elim (dec_lt (length xs) j) [
      | yes h' ↦
          omega (arith, get_or-after (xs ++ e ∷ []) j (omega (arith, length-append xs (e ∷ []))))
      | no h' ↦
          let same : j ≡ length xs = omega arith in
          subst (λ i. get_or (xs ++ e ∷ []) i 0 ≤ get_or (xs ++ e ∷ []) (length xs) 0) (sym same)
            (omega arith)
    ]
  ];
  earlier = λ j h. omega (arith, get_or-before xs e j h, get_or-at xs e, below j);
}

strongest_rest :
    (best top : ℕ) (xs : List ℕ) (lanes : List Lane)
    → get_or xs best 0 ≡ top
    → IsFirstLargest best xs
    → IsFirstLargest (strongest best top (length xs) lanes) (xs ++ map energy_of lanes)
unfolding strongest
strongest_rest best top xs [] e v = subst (IsFirstLargest best) (sym (append-nil xs)) v
strongest_rest best top xs (lane ∷ lanes) e v =
    let grown = xs ++ energy_of lane ∷ [] in
    let size : length grown ≡ length xs + 1 = length-append xs (energy_of lane ∷ []) in
    let parts : grown ++ map energy_of lanes ≡ xs ++ map energy_of (lane ∷ lanes) =
      append_assoc xs (energy_of lane ∷ []) (map energy_of lanes) in
    elim (Bool-cases (ltb top (energy_of lane))) [
      | inl more ↦
          let next =
            strongest_rest (length xs) (energy_of lane) grown lanes (get_or-at xs (energy_of lane))
              (new_largest (energy_of lane) top xs (ground arith)
                (λ j. omega (arith, v.largest j))) in
          rw (more, sym size, sym parts) next
      | inr less ↦
          let next =
            strongest_rest best top grown lanes
              (get_or-before xs (energy_of lane) best v.inside ∙ e)
              (keep_largest best (energy_of lane) xs (ground arith) v) in
          rw (less, sym size, sym parts) next
    ]

alone : (e : ℕ) → IsFirstLargest 0 (e ∷ [])
alone e = record { inside = omega arith; largest = largest; earlier = λ j h. absurd (omega arith) }
  where
    largest : (j : ℕ) → get_or (e ∷ []) j 0 ≤ e
    largest zero = omega arith
    largest (suc j) = omega arith

-- The index that `std::max_element` gives over the four energies, or any number of them but none, is
-- that of the first of the largest.
pub strongest-IsFirstLargest :
    (lane : Lane) (lanes : List Lane)
    → IsFirstLargest (strongest 0 0 0 (lane ∷ lanes)) (map energy_of (lane ∷ lanes))
unfolding strongest
strongest-IsFirstLargest lane lanes =
    let e = energy_of lane in
    let zeroth : ℕ = 0 in
    let first : (if ltb 0 e then zeroth else zeroth) ≡ zeroth = ground arith in
    let top : (if ltb 0 e then e else 0) ≡ e = ground arith in
    rw (first, top) (strongest_rest 0 e (e ∷ []) lanes refl (alone e))

-- ===== src/Passing/Waveform.antt =====
-- The numeric routines of src/passing.cpp: interpolation, peaks, crossings. A `std::vector`
-- index that is out of range reads the zero literal here, so that such a read is not seen by itself;
-- Interpolation shows that those of the interpolation are in range.
pub mod Peaks
pub mod Interpolation
use mathlib.Core.List.{reverse}
use openstint.Base.{
  Bool, List, [], drop, get_or, if◌then◌else◌, keep_if, last_or, length, ltb, map, suc, take, zero,
  ℕ, ◌%◌, ◌&&◌, ◌*◌, ◌++◌, ◌+◌, ◌-◌, ◌^◌, ◌||◌, ◌∷◌,
}
use openstint.Float.{Float}

module _ (F : Float) where
  open F use {R, lt, le, add, sub, mul, div, neg, lit, of_ℕ}

  abbrev pub at : List R → ℕ → R
  at y i = get_or y i (lit 0 0)

  -- `while (j < x.size() - 2 && x[j+1] < xi) j++;`, whose bound is a `size_t` difference.
  unfoldable pub advance : ℕ → List R → R → ℕ → ℕ
  advance zero x xi j = j
  advance (suc fuel) x xi j =
      let go = advance fuel x xi (j + 1) in
      if ltb j ((length x + 2 ^ 64 - 2) % 2 ^ 64) && lt (at x (j + 1)) xi then go else j

  unfoldable pub interp_from : List R → List R → ℕ → List R → List R
  unfolding advance
  interp_from x y j [] = []
  interp_from x y j (xi ∷ x_new) =
      let below = le xi (at x 0) in
      let above = le (last_or x (lit 0 0)) xi in
      let j' = (if below || above then j else advance (length x) x xi j) in
      let t = div (sub xi (at x j')) (sub (at x (j' + 1)) (at x j')) in
      let v =
        (if below
          then at y 0
          else if above
          then last_or y (lit 0 0)
          else add (at y j') (mul t (sub (at y (j' + 1)) (at y j')))) in
      v ∷ interp_from x y j' x_new

  unfoldable pub interp : List R → List R → List R → List R
  unfolding interp_from
  interp x_new x y = interp_from x y 0 x_new

  pub record Peak : Type 0 where
    pub index : ℕ
    pub value : R
    pub prominence : R

  -- `y[i] > y[i-1] && y[i] > y[i+1]`
  abbrev pub is_maximum : List R → ℕ → Bool
  is_maximum y i = lt (at y (i - 1)) (at y i) && lt (at y (i + 1)) (at y i)

  -- The first loop of `find_peaks` from `i` on, with `n` rounds left.
  unfoldable pub local_maxima : ℕ → ℕ → List R → List Peak
  local_maxima zero i y = []
  local_maxima (suc n) i y =
      let rest = local_maxima n (i + 1) y in
      if is_maximum y i
      then record { index = i; value = at y i; prominence = lit 0 0 } ∷ rest
      else rest

  abbrev pub smaller : R → R → R
  smaller a b = if lt b a then b else a

  abbrev pub larger : R → R → R
  larger a b = if lt a b then b else a

  -- `for (size_t j = peak.index; j > 0; j--)`
  unfoldable pub left_minimum : ℕ → R → R → List R → R
  left_minimum zero value low y = low
  left_minimum (suc j) value low y =
      let low' = smaller low (at y (suc j)) in
      let rest = left_minimum j value low' y in if lt value (at y (suc j)) then low' else rest

  -- `for (size_t j = peak.index; j < y.size(); j++)`, with `n` rounds left.
  unfoldable pub right_minimum : ℕ → ℕ → R → R → List R → R
  right_minimum zero j value low y = low
  right_minimum (suc n) j value low y =
      let low' = smaller low (at y j) in
      let rest = right_minimum n (j + 1) value low' y in if lt value (at y j) then low' else rest

  unfoldable pub with_prominence : List R → Peak → Peak
  unfolding left_minimum right_minimum
  with_prominence y p = record p {
    prominence = sub p.value (
        larger (left_minimum p.index p.value p.value y)
          (right_minimum (length y - p.index) p.index p.value p.value y));
  }

  unfoldable pub find_peaks : List R → R → List Peak
  find_peaks y min_prominence =
      keep_if (λ p. le min_prominence p.prominence)
        (map (with_prominence y) (local_maxima (length y - 2) 1 y))

  -- The loop of `first_crossing` from `i` on.
  unfoldable pub first_from : ℕ → ℕ → List R → R → R
  first_from zero i y v = lit 0 0
  first_from (suc n) i y v =
      let rest = first_from n (i + 1) y v in
      if le v (at y i)
      then add (of_ℕ (i - 1)) (div (sub v (at y (i - 1))) (sub (at y i) (at y (i - 1))))
      else rest

  unfoldable pub first_crossing : List R → R → R
  unfolding first_from
  first_crossing y v = if le v (at y 0) then lit 0 0 else first_from (length y - 1) 1 y v

  -- The loop of `last_crossing` from `i` down to 1; `end` is what it returns when it finds none.
  unfoldable pub last_from : ℕ → List R → R → R → R
  last_from zero y v end = end
  last_from (suc i) y v end =
      let rest = last_from i y v end in
      if le v (at y (suc i))
      then sub (of_ℕ (suc i + 1))
          (div (sub v (at y (suc i + 1))) (sub (at y (suc i)) (at y (suc i + 1))))
      else rest

  unfoldable pub last_crossing : List R → R → R
  unfolding last_from
  last_crossing y v =
      let k = length y - 1 in if le v (at y k) then of_ℕ k else last_from (k - 1) y v (of_ℕ k)

  -- The reflections and the two passes of `filtfilt`. `fir` runs liquid's filter with these taps from
  -- a clean state over a block.
  unfoldable pub reflect_left : ℕ → List R → List R
  reflect_left zero x = []
  reflect_left (suc n) x = sub (mul (lit 2 0) (at x 0)) (at x (suc n)) ∷ reflect_left n x

  unfoldable pub reflect_right : ℕ → ℕ → List R → List R
  reflect_right zero i x = []
  reflect_right (suc n) i x =
      sub (mul (lit 2 0) (at x (length x - 1))) (at x (length x - 2 - i))
      ∷ reflect_right n (i + 1) x

  unfoldable pub filtfilt : (List R → List R → List R) → List R → List R → List R
  unfolding reflect_left reflect_right
  filtfilt fir b x =
      let padlen = 3 * length b in
      let padded = reflect_left padlen x ++ (x ++ reflect_right padlen 0 x) in
      let y1 = reverse (fir b padded) in
      let y2 = reverse (fir b y1) in take (length x) (drop padlen y2)

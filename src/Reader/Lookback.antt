-- ===== src/Reader/Lookback.antt =====
-- `load_preamble_buffer` of src/frame.cpp over two buffers in a row.
use native.Mathlib.Decide.{dec_lt}
use openstint.Base.{
  List, Option, [], ap, arith, drop, drop-whole, false, get_elem?, length, length-append,
  length-take, ltb, map, none, refl, some, suc, sym, take, true, zero, ℕ, ◌++◌, ◌+◌, ◌-◌, ◌<◌, ◌∙◌,
  ◌∷◌, ◌≡◌, ◌≤◌,
}
use openstint.Float.{Float}
use openstint.Detector.{Complex}
use openstint.Reader.{
  reserve_buffer_size, update_reserve_buffer, sample_at, centred, load, load_preamble_buffer,
}

module _ {A : Type 0} where
  get_elem?-take : (n i : ℕ) (xs : List A) → i < n → get_elem? (take n xs) i ≡ get_elem? xs i
  get_elem?-take zero i xs h = absurd (omega arith)
  get_elem?-take (suc n) i [] h = refl
  get_elem?-take (suc n) zero (x ∷ xs) h = refl
  get_elem?-take (suc n) (suc i) (x ∷ xs) h = get_elem?-take n i xs (omega arith)

  get_elem?-drop : (n i : ℕ) (xs : List A) → get_elem? (drop n xs) i ≡ get_elem? xs (n + i)
  get_elem?-drop zero i xs = ap (get_elem? xs) (omega arith)
  get_elem?-drop (suc n) i [] = refl
  get_elem?-drop (suc n) i (x ∷ xs) =
      let next : suc n + i ≡ suc (n + i) = omega arith in
      get_elem?-drop n i xs ∙ ap (get_elem? (x ∷ xs)) (sym next)

  get_elem?-front :
      (xs ys : List A) (i : ℕ) → i < length xs → get_elem? (xs ++ ys) i ≡ get_elem? xs i
  get_elem?-front [] ys i h = absurd (omega arith)
  get_elem?-front (x ∷ xs) ys zero h = refl
  get_elem?-front (x ∷ xs) ys (suc i) h = get_elem?-front xs ys i (omega arith)

  get_elem?-back : (xs ys : List A) (i : ℕ) → get_elem? (xs ++ ys) (length xs + i) ≡ get_elem? ys i
  get_elem?-back [] ys i = ap (get_elem? ys) (omega arith)
  get_elem?-back (x ∷ xs) ys i =
      let next : length (x ∷ xs) + i ≡ suc (length xs + i) = omega arith in
      ap (get_elem? (x ∷ xs ++ ys)) next ∙ get_elem?-back xs ys i

  -- What is left from an index inside starts with its entry.
  drop-get_elem? :
      (i : ℕ) (xs : List A)
      → i < length xs
      → (x : A) × (get_elem? xs i ≡ some x) × (drop i xs ≡ x ∷ drop (suc i) xs)
  drop-get_elem? i [] h = absurd (omega arith)
  drop-get_elem? zero (x ∷ xs) h = (x, refl, refl)
  drop-get_elem? (suc i) (x ∷ xs) h = drop-get_elem? i xs (omega arith)

module _ (F : Float) (dc : F.R × F.R) (previous src : List Complex) (end : ℕ) where
  -- The stream of samples as far as it was read, and the reserve.
  abbrev stream : List Complex
  stream = previous ++ take end src

  abbrev reserve : List Complex
  reserve = take reserve_buffer_size (drop (length previous - reserve_buffer_size) previous)

  sample_at-stream :
      (i : ℕ)
      → reserve_buffer_size ≤ length previous
      → i < reserve_buffer_size
      → end ≤ length src
      → sample_at reserve src end i
        ≡ get_elem? stream (length previous + end - reserve_buffer_size + i)
  unfolding sample_at
  sample_at-stream i h k e = elim (dec_lt (end + i) reserve_buffer_size) [
    | yes old ↦
        let test : ltb (end + i) reserve_buffer_size ≡ true = ground arith in
        let place : length previous - reserve_buffer_size + (end + i)
            ≡ length previous + end - reserve_buffer_size + i =
          omega arith in
        rw test (
          get_elem?-take reserve_buffer_size (end + i)
            (drop (length previous - reserve_buffer_size) previous) old
          ∙ get_elem?-drop (length previous - reserve_buffer_size) (end + i) previous
          ∙ ap (get_elem? previous) place
          ∙ sym (get_elem?-front previous (take end src) _ (omega arith)))
    | no new ↦
        let test : ltb (end + i) reserve_buffer_size ≡ false = ground arith in
        let place : length previous + (end + i - reserve_buffer_size)
            ≡ length previous + end - reserve_buffer_size + i =
          omega arith in
        rw test (
          sym (get_elem?-take end (end + i - reserve_buffer_size) src (omega arith))
          ∙ sym (get_elem?-back previous (take end src) (end + i - reserve_buffer_size))
          ∙ ap (get_elem? stream) place)
  ]

  abbrev from : ℕ → List Complex
  from i = drop (length previous + end - reserve_buffer_size + i) stream

  load-from :
      (n i : ℕ)
      → reserve_buffer_size ≤ length previous
      → end ≤ length src
      → n + i ≡ reserve_buffer_size
      → load F dc reserve src end n i ≡ some (map (centred F dc) (from i))
  unfolding load
  load-from zero i h e count =
      let size : length stream ≡ length previous + end =
        omega (arith, length-append previous (take end src), length-take end src) in
      ap (λ xs. some (map (centred F dc) xs))
        (sym (
          drop-whole (length previous + end - reserve_buffer_size + i) stream
            (omega (arith, size))))
  load-from (suc n) i h e count =
      let size : length stream ≡ length previous + end =
        omega (arith, length-append previous (take end src), length-take end src) in
      let place : ℕ = length previous + end - reserve_buffer_size + i in
      let (s, here, parts) = drop-get_elem? place stream (omega (arith, size)) in
      let next : suc place ≡ length previous + end - reserve_buffer_size + (i + 1) = omega arith in
      let rest = load-from n (i + 1) h e (omega arith) in
      ap
        (λ o. elim o as (λ x. Option (List (F.R × F.R))) [
          | none ↦ none
          | some x ↦ elim (load F dc reserve src end n (i + 1)) [
            | none ↦ none
            | some xs ↦ some (centred F dc x ∷ xs)
          ]
        ])
        (sample_at-stream i h (omega arith) e ∙ here)
      ∙ ap
          (λ o. elim o as (λ x. Option (List (F.R × F.R))) [
            | none ↦ none
            | some xs ↦ some (centred F dc s ∷ xs)
          ])
          rest
      ∙ ap (λ xs. some (map (centred F dc) xs)) (ap (λ k. s ∷ drop k stream) (sym next) ∙ sym parts)

  -- Once a buffer of at least 72 samples was saved, the window that ends at any place of the next
  -- buffer is loaded, and it is the last 72 samples of both buffers' stream up to that place, less
  -- the offset: nothing is lost or doubled where the buffers meet.
  pub load_preamble_buffer-stream :
      reserve_buffer_size ≤ length previous
      → end ≤ length src
      → (kept : List Complex) × (update_reserve_buffer previous (length previous) ≡ some kept)
        × (load_preamble_buffer F dc kept src end
            ≡ some (
                map
                  (centred F dc)
                  (drop (length previous + end - reserve_buffer_size) (previous ++ take end src))))
  unfolding update_reserve_buffer load_preamble_buffer
  load_preamble_buffer-stream h e =
      let enough : ltb (length previous) reserve_buffer_size ≡ false = ground arith in
      let whole : ltb (length previous) (length previous) ≡ false = ground arith in
      let start : length previous + end - reserve_buffer_size + 0
          ≡ length previous + end - reserve_buffer_size =
        omega arith in
      (
        reserve,
        rw (enough, whole) refl,
        load-from reserve_buffer_size 0 h e refl
            ∙ ap (λ k. some (map (centred F dc) (drop k stream))) start,
      )

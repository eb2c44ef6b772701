-- ===== src/Reader/Training/Answers.antt =====
-- That `train_preamble` of src/frame.cpp never reads outside its arrays: the 72 samples of the
-- preamble's window are just what an epoch of the training takes.
use native.Mathlib.Decide.{dec_lt}
use openstint.Base.{
  Bool, List, Option, [], ap, arith, bind-some, false, get_elem?, length, ltb, none, refl, some,
  suc, true, zero, ℕ, ◌*◌, ◌+◌, ◌-◌, ◌<◌, ◌>>=◌, ◌∙◌, ◌∷◌, ◌≡◌, ◌≤◌,
}
use openstint.Float.{Float}
use openstint.Transponder.{TransponderProtocol, transponder_props, preamble_symbols, symbols_from}
use openstint.Detector.{Complex}
use openstint.Frame.{Frame}
use openstint.Reader.{reserve_buffer_size, load, load_preamble_buffer, sample_at, centred}
use openstint.Reader.Liquid.{Dsp, sign}
use openstint.Reader.Training.{
  SymbolReader, push_from, train_symbols, train_all, train_fseq, train_epochs, rotate, estimate,
  trained, train_loaded, train_preamble, eq_mu_train,
}

module _ {A : Type 0} where
  get_elem?-answers : (xs : List A) (i : ℕ) → i < length xs → (x : A) × (get_elem? xs i ≡ some x)
  get_elem?-answers [] i h = absurd (omega arith)
  get_elem?-answers (x ∷ xs) zero h = (x, refl)
  get_elem?-answers (x ∷ xs) (suc i) h = get_elem?-answers xs i (omega arith)

sample_at-answers :
    (reserve src : List Complex) (end i : ℕ)
    → length reserve ≡ reserve_buffer_size
    → end ≤ length src
    → i < reserve_buffer_size
    → (s : Complex) × (sample_at reserve src end i ≡ some s)
unfolding sample_at
sample_at-answers reserve src end i full inside h = elim (dec_lt (end + i) reserve_buffer_size) [
  | yes old ↦
      let test : ltb (end + i) reserve_buffer_size ≡ true = ground arith in
      let (s, e) = get_elem?-answers reserve (end + i) (omega (arith, full)) in (s, rw test e)
  | no new ↦
      let test : ltb (end + i) reserve_buffer_size ≡ false = ground arith in
      let (s, e) = get_elem?-answers src (end + i - reserve_buffer_size) (omega arith) in
      (s, rw test e)
]

length-symbols_from : (n w : ℕ) → length (symbols_from n w) ≡ n
unfolding symbols_from
length-symbols_from zero w = refl
length-symbols_from (suc n) w = ap suc (length-symbols_from n w)

length-preamble_symbols : (w : ℕ) → length (preamble_symbols w) ≡ 16
unfolding preamble_symbols
length-preamble_symbols w = length-symbols_from 16 w

module _ (F : Float) (dsp : Dsp F) where
  load-answers :
      (dc : F.R × F.R) (reserve src : List Complex) (end n i : ℕ)
      → length reserve ≡ reserve_buffer_size
      → end ≤ length src
      → n + i ≡ reserve_buffer_size
      → (xs : List (F.R × F.R)) × (load F dc reserve src end n i ≡ some xs) × (length xs ≡ n)
  unfolding load
  load-answers dc reserve src end zero i full inside h = ([], refl, refl)
  load-answers dc reserve src end (suc n) i full inside h =
      let (s, e) = sample_at-answers reserve src end i full inside (omega arith) in
      let (xs, e', count) = load-answers dc reserve src end n (i + 1) full inside (omega arith) in
      (
        centred F dc s ∷ xs,
        ap
              (λ o. elim o as (λ x. Option (List (F.R × F.R))) [
                | none ↦ none
                | some t ↦ elim (load F dc reserve src end n (i + 1)) [
                  | none ↦ none
                  | some rest ↦ some (centred F dc t ∷ rest)
                ]
              ])
              e
            ∙ ap
                (λ o. elim o as (λ x. Option (List (F.R × F.R))) [
                  | none ↦ none
                  | some rest ↦ some (centred F dc s ∷ rest)
                ])
                e',
        ap suc count,
      )

  push_from-answers :
      (n : ℕ) (xs : List (F.R × F.R)) (eq : dsp.Eqlms)
      → n ≤ length xs
      → (out : List (F.R × F.R) × dsp.Eqlms) × (push_from F dsp n xs eq ≡ some out)
        × (length out.0 + n ≡ length xs)
  unfolding push_from
  push_from-answers zero xs eq h = ((xs, eq), refl, omega arith)
  push_from-answers (suc n) [] eq h = absurd (omega arith)
  push_from-answers (suc n) (x ∷ xs) eq h =
      let (out, e, count) = push_from-answers n xs (dsp.eqlms_push eq x) (omega arith) in
      (out, e, omega (arith, count))

  train_symbols-answers :
      (syms : List Bool) (xs : List (F.R × F.R)) (eq : dsp.Eqlms)
      → 4 * length syms ≤ length xs
      → (eq' : dsp.Eqlms) × (train_symbols F dsp syms xs eq ≡ some eq')
  unfolding train_symbols
  train_symbols-answers [] xs eq h = (eq, refl)
  train_symbols-answers (s ∷ syms) xs eq h =
      let (out, e, count) = push_from-answers 4 xs eq (omega arith) in
      let (eq', e') = train_symbols-answers syms out.0 _ (omega (arith, count)) in
      (
        eq',
        bind-some (push_from F dsp 4 xs eq)
              (λ p.
                train_symbols F dsp syms p.0
                  (dsp.eqlms_step p.1 (sign F s, F.lit 0 0) (dsp.eqlms_execute p.1)))
              e
            ∙ e',
      )

  train_all-answers :
      (syms : List Bool) (xs : List (F.R × F.R)) (eq : dsp.Eqlms)
      → 4 * length syms ≤ length xs + 4
      → (eq' : dsp.Eqlms) × (train_all F dsp syms xs eq ≡ some eq')
  unfolding train_all
  train_all-answers [] xs eq h = (eq, refl)
  train_all-answers (s ∷ syms) xs eq h = train_symbols-answers syms xs _ (omega arith)

  train_fseq-answers :
      (protocol : TransponderProtocol) (xs : List (F.R × F.R)) (mu : F.R) (eq : dsp.Eqlms)
      → length xs ≡ 72
      → (eq' : dsp.Eqlms) × (train_fseq F dsp protocol xs mu eq ≡ some eq')
  unfolding train_fseq
  train_fseq-answers protocol xs mu eq h =
      let syms = preamble_symbols (transponder_props protocol).preamble in
      let (out, e, count) = push_from-answers 12 xs (dsp.eqlms_set_bw eq mu) (omega arith) in
      let (eq', e') =
        train_all-answers syms out.0 out.1
          (omega (arith, count, length-preamble_symbols (transponder_props protocol).preamble)) in
      (
        eq',
        bind-some (push_from F dsp 12 xs (dsp.eqlms_set_bw eq mu))
              (λ p. train_all F dsp syms p.0 p.1) e
            ∙ e',
      )

  train_epochs-answers :
      (protocol : TransponderProtocol) (xs : List (F.R × F.R)) (eq : dsp.Eqlms)
      → length xs ≡ 72
      → (eq' : dsp.Eqlms) × (train_epochs F dsp protocol xs eq ≡ some eq')
  unfolding train_epochs
  train_epochs-answers protocol xs eq h =
      let mu = eq_mu_train F dsp in
      let (eq1, e1) = train_fseq-answers protocol xs (F.mul mu (F.lit 3 0)) eq h in
      let (eq2, e2) = train_fseq-answers protocol xs mu eq1 h in
      let (eq3, e3) = train_fseq-answers protocol xs mu eq2 h in
      let once = train_fseq F dsp protocol xs mu in
      (
        eq3,
        bind-some (train_fseq F dsp protocol xs (F.mul mu (F.lit 3 0)) eq) (λ q. once q >>= once) e1
            ∙ bind-some (once eq1) once e2
            ∙ e3,
      )

  length-rotate :
      (scale phase0 per_symbol : F.R) (i : ℕ) (xs : List (F.R × F.R))
      → length (rotate F dsp scale phase0 per_symbol i xs) ≡ length xs
  unfolding rotate
  length-rotate scale phase0 per_symbol i [] = refl
  length-rotate scale phase0 per_symbol i (x ∷ xs) =
      ap suc (length-rotate scale phase0 per_symbol (i + 1) xs)

  abbrev Pair : Type 0
  Pair = Frame F × SymbolReader F dsp

  -- The frame keeps its protocol, its sizes and its bits, the reader its reserve.
  pub record IsTrained (f : Frame F) (r : SymbolReader F dsp) (out : Pair) : Type 0 where
    pub protocol : out.0.transponder_protocol ≡ f.transponder_protocol
    pub preamble : out.0.preamble_size ≡ f.preamble_size
    pub payload : out.0.payload_size ≡ f.payload_size
    pub softbits : out.0.softbits ≡ f.softbits
    pub reserve : out.1.reserve_buffer ≡ r.reserve_buffer

  length-estimate :
      (xs : List (F.R × F.R)) (f : Frame F) → length (estimate F dsp xs f).1 ≡ length xs
  unfolding estimate
  length-estimate xs f = length-rotate _ _ _ 0 xs

  train_loaded-IsTrained :
      (xs : List (F.R × F.R)) (f : Frame F) (r : SymbolReader F dsp)
      → length xs ≡ 72
      → (out : Pair) × (train_loaded F dsp xs f r ≡ some out) × IsTrained f r out
  unfolding train_loaded estimate
  train_loaded-IsTrained xs f r h =
      let (g, buffer) = estimate F dsp xs f in
      let (eq, e) =
        train_epochs-answers f.transponder_protocol buffer (dsp.eqlms_reset r.sym_eq)
          (length-estimate xs f ∙ h) in
      (
        (g, trained F dsp r buffer eq),
        bind-some (train_epochs F dsp f.transponder_protocol buffer (dsp.eqlms_reset r.sym_eq))
            (λ q. some (g, trained F dsp r buffer q)) e,
        record {
          protocol = refl;
          preamble = refl;
          payload = refl;
          softbits = refl;
          reserve = refl;
        },
      )

  -- With the reserve full, the training on the window before any place of a buffer comes to an end.
  pub train_preamble-IsTrained :
      (dc : F.R × F.R) (src : List Complex) (end : ℕ) (f : Frame F) (r : SymbolReader F dsp)
      → length r.reserve_buffer ≡ reserve_buffer_size
      → end ≤ length src
      → (out : Pair) × (train_preamble F dsp dc src end f r ≡ some out) × IsTrained f r out
  unfolding train_preamble load_preamble_buffer
  train_preamble-IsTrained dc src end f r full inside =
      let (xs, e, count) = load-answers dc r.reserve_buffer src end 72 0 full inside refl in
      let (out, e', trained) = train_loaded-IsTrained xs f r count in
      (
        out,
        bind-some (load F dc r.reserve_buffer src end 72 0) (λ ys. train_loaded F dsp ys f r) e
            ∙ e',
        trained,
      )

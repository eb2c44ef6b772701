-- ===== src/Reader/Symbol/Count.antt =====
-- How many soft bits `SymbolReader` of src/frame.cpp adds to a frame.
use openstint.Base.{
  Bool-cases, List, [], ap, arith, bind-some, inl, inr, length, length-append, length-drop, ltb,
  refl, some, subst, suc, zero, ℕ, ◌*◌, ◌+◌, ◌-◌, ◌<◌, ◌∙◌, ◌∷◌, ◌≡◌, ◌≤◌,
}
use openstint.Float.{Float}
use openstint.Detector.{Complex}
use openstint.Frame.{Frame}
use openstint.Reader.{reserve_buffer_size}
use openstint.Reader.Liquid.{Dsp}
use openstint.Reader.Training.{SymbolReader}
use openstint.Reader.Symbol.{
  push_samples, demodulate, read_symbol, read_rounds, read_preamble, symbol_samples,
}

module _ (F : Float) (dsp : Dsp F) where
  abbrev Pair : Type 0
  Pair = Frame F × SymbolReader F dsp

  -- The same frame but for what the demodulation of `n` symbols changes.
  pub record Grown (n : ℕ) (f g : Frame F) : Type 0 where
    pub protocol : g.transponder_protocol ≡ f.transponder_protocol
    pub preamble : g.preamble_size ≡ f.preamble_size
    pub payload : g.payload_size ≡ f.payload_size
    pub count : length g.softbits ≡ length f.softbits + n

  push_samples-answers :
      (dc : F.R × F.R) (f : Frame F) (n i : ℕ) (src : List Complex) (eq : dsp.Eqlms)
      → n ≤ length src
      → (eq' : dsp.Eqlms) × (push_samples F dsp dc f n i src eq ≡ some eq')
  unfolding push_samples
  push_samples-answers dc f zero i src eq h = (eq, refl)
  push_samples-answers dc f (suc n) i [] eq h = absurd (omega arith)
  push_samples-answers dc f (suc n) i (s ∷ src) eq h =
      push_samples-answers dc f n (i + 1) src _ (omega arith)

  demodulate-Grown :
      (eq : dsp.Eqlms) (f : Frame F) (r : SymbolReader F dsp)
      → Grown 1 f (demodulate F dsp eq f r).0
        × ((demodulate F dsp eq f r).1.reserve_buffer ≡ r.reserve_buffer)
  unfolding demodulate
  demodulate-Grown eq f r = (
    record { protocol = refl; preamble = refl; payload = refl; count = length-append f.softbits _ },
    refl,
  )

  -- A symbol of at least four samples is read, and gives one soft bit.
  pub read_symbol-Grown :
      (dc : F.R × F.R) (src : List Complex) (f : Frame F) (r : SymbolReader F dsp)
      → 4 ≤ length src
      → (out : Pair) × (read_symbol F dsp dc src f r ≡ some out)
        × Grown 1 f out.0
        × (out.1.reserve_buffer ≡ r.reserve_buffer)
  unfolding read_symbol
  read_symbol-Grown dc src f r h =
      let (eq, e) = push_samples-answers dc f 4 0 src r.sym_eq h in
      let (grown, kept) = demodulate-Grown eq f r in
      (
        demodulate F dsp eq f r,
        bind-some (push_samples F dsp dc f 4 0 src r.sym_eq) (λ q. some (demodulate F dsp q f r)) e,
        grown,
        kept,
      )

  Grown-trans : (m n : ℕ) (f g h : Frame F) → Grown m f g → Grown n g h → Grown (m + n) f h
  Grown-trans m n f g h a b = record {
    protocol = b.protocol ∙ a.protocol;
    preamble = b.preamble ∙ a.preamble;
    payload = b.payload ∙ a.payload;
    count = omega (arith, a.count, b.count);
  }

  -- Where the window ends at a multiple of four, each round finds its four samples.
  pub symbol_samples-enough :
      (reserve src : List Complex) (k i : ℕ)
      → length reserve ≡ reserve_buffer_size
      → 4 * (k + 1) ≤ length src
      → i < 18
      → 4 ≤ length (symbol_samples F dsp reserve src (4 * (k + 1)) i)
  symbol_samples-enough reserve src k i full inside h =
      elim (Bool-cases (ltb (4 * (k + 1) + 4 * i) reserve_buffer_size)) [
        | inl old ↦ rw old (ground (arith, length-drop (4 * (k + 1) + 4 * i) reserve))
        | inr new ↦
            rw new (ground (arith, length-drop (4 * (k + 1) + 4 * i - reserve_buffer_size) src))
      ]

  read_rounds-Grown :
      (dc : F.R × F.R) (src : List Complex) (k n i : ℕ) (f : Frame F) (r : SymbolReader F dsp)
      → length r.reserve_buffer ≡ reserve_buffer_size
      → 4 * (k + 1) ≤ length src
      → n + i ≡ 18
      → (out : Pair) × (read_rounds F dsp dc src (4 * (k + 1)) n i f r ≡ some out)
        × Grown n f out.0
        × (out.1.reserve_buffer ≡ r.reserve_buffer)
  unfolding read_rounds
  read_rounds-Grown dc src k zero i f r full inside h = (
    (f, r),
    refl,
    record { protocol = refl; preamble = refl; payload = refl; count = omega arith },
    refl,
  )
  read_rounds-Grown dc src k (suc n) i f r full inside h =
      let (one, e, grown, kept) =
        read_symbol-Grown dc (symbol_samples F dsp r.reserve_buffer src (4 * (k + 1)) i) f r
          (symbol_samples-enough r.reserve_buffer src k i full inside (omega arith)) in
      let (out, e', grown', kept') =
        read_rounds-Grown dc src k n (i + 1) one.0 one.1 (ap length kept ∙ full) inside
          (omega arith) in
      (
        out,
        bind-some
              (read_symbol F dsp dc (symbol_samples F dsp r.reserve_buffer src (4 * (k + 1)) i) f r)
              (λ out. read_rounds F dsp dc src (4 * (k + 1)) n (i + 1) out.0 out.1) e
            ∙ e',
        subst (λ m. Grown m f out.0) (omega arith) (Grown-trans 1 n f one.0 out.0 grown grown'),
        kept' ∙ kept,
      )

  -- The preamble read from a window that ends at a multiple of four gives 18 soft bits.
  pub read_preamble-Grown :
      (dc : F.R × F.R) (src : List Complex) (end k : ℕ) (f : Frame F) (r : SymbolReader F dsp)
      → length r.reserve_buffer ≡ reserve_buffer_size
      → 4 * (k + 1) ≡ end
      → end ≤ length src
      → (out : Pair) × (read_preamble F dsp dc src end f r ≡ some out)
        × Grown 18 f out.0
        × (out.1.reserve_buffer ≡ r.reserve_buffer)
  unfolding read_preamble
  read_preamble-Grown dc src end k f r full place inside =
      subst
        (λ e.
          (out : Pair) × (read_preamble F dsp dc src e f r ≡ some out)
          × Grown 18 f out.0
          × (out.1.reserve_buffer ≡ r.reserve_buffer))
        place (read_rounds-Grown dc src k 18 0 f r full (omega (arith, place)) refl)

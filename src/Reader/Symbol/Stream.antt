-- ===== src/Reader/Symbol/Stream.antt =====
-- `read_preamble` of src/frame.cpp over two buffers in a row: the reserve of the one and the samples of
-- the other as one stream.
use openstint.Base.{
  Bool-cases, List, Option, [], ap, arith, bind-some, drop, drop-append, drop-drop, drop-past,
  drop-take, false, inl, inr, length, length-drop, length-take, ltb, refl, some, suc, sym, take,
  take-append, take-take, take-whole, zero, ℕ, ◌*◌, ◌++◌, ◌+◌, ◌-◌, ◌<◌, ◌>>=◌, ◌∙◌, ◌∷◌, ◌≡◌, ◌≤◌,
}
use openstint.Float.{Float}
use openstint.Detector.{Complex}
use openstint.Frame.{Frame}
use openstint.Reader.{reserve_buffer_size, update_reserve_buffer}
use openstint.Reader.Liquid.{Dsp}
use openstint.Reader.Training.{SymbolReader}
use openstint.Reader.Symbol.{
  push_samples, demodulate, read_symbol, read_rounds, read_preamble, symbol_samples,
}
use openstint.Reader.Symbol.Count.{read_symbol-Grown, symbol_samples-enough}

module _ (F : Float) (dsp : Dsp F) where
  abbrev Pair : Type 0
  Pair = Frame F × SymbolReader F dsp

  -- Symbols read one behind the other from a stream of samples.
  unfoldable pub read_stream :
      F.R × F.R → ℕ → List Complex → Frame F → SymbolReader F dsp → Option Pair
  read_stream dc zero samples f r = some (f, r)
  read_stream dc (suc n) samples f r = do
    (f', r') ← read_symbol F dsp dc samples f r
    read_stream dc n (drop 4 samples) f' r'

  push_samples-take :
      (dc : F.R × F.R) (f : Frame F) (n i : ℕ) (src : List Complex) (eq : dsp.Eqlms)
      → push_samples F dsp dc f n i src eq ≡ push_samples F dsp dc f n i (take n src) eq
  unfolding push_samples
  push_samples-take dc f zero i src eq = refl
  push_samples-take dc f (suc n) i [] eq = refl
  push_samples-take dc f (suc n) i (s ∷ src) eq = push_samples-take dc f n (i + 1) src _

  -- Only the first four samples matter to a symbol.
  read_symbol-cong :
      (dc : F.R × F.R) (xs ys : List Complex) (f : Frame F) (r : SymbolReader F dsp)
      → take 4 xs ≡ take 4 ys
      → read_symbol F dsp dc xs f r ≡ read_symbol F dsp dc ys f r
  unfolding read_symbol
  read_symbol-cong dc xs ys f r same =
      let pushed =
        push_samples-take dc f 4 0 xs r.sym_eq
        ∙ ap (λ zs. push_samples F dsp dc f 4 0 zs r.sym_eq) same
        ∙ sym (push_samples-take dc f 4 0 ys r.sym_eq) in
      ap (λ o. o >>= (λ eq. some (demodulate F dsp eq f r))) pushed

  -- The samples of a round, as far as they matter, are those of the stream.
  symbol_samples-stream :
      (previous src : List Complex) (k i start : ℕ)
      → reserve_buffer_size ≤ length previous
      → 4 * (k + 1) ≤ length src
      → i < 18
      → start + reserve_buffer_size ≡ length previous + 4 * (k + 1)
      → take 4 (
          symbol_samples F dsp
            (take reserve_buffer_size (drop (length previous - reserve_buffer_size) previous))
            src
            (4 * (k + 1))
            i)
        ≡ take 4 (drop (start + 4 * i) (previous ++ take (4 * (k + 1)) src))
  symbol_samples-stream previous src k i start enough inside round place =
      let end = 4 * (k + 1) in
      let tail = drop (length previous - reserve_buffer_size) previous in
      elim (Bool-cases (ltb (end + 4 * i) reserve_buffer_size)) [
        | inl old ↦
            let before : end + 4 * i + 4 ≤ reserve_buffer_size = ground (arith, old) in
            let rest = drop (start + 4 * i) previous in
            let count = length-drop (start + 4 * i) previous in
            let whole : take reserve_buffer_size tail ≡ tail =
              take-whole reserve_buffer_size tail
                (omega (arith, length-drop (length previous - reserve_buffer_size) previous)) in
            rw old (
              ap (λ t. take 4 (drop (end + 4 * i) t)) whole
              ∙ ap (take 4) (
                  drop-drop (end + 4 * i) (length previous - reserve_buffer_size) (start + 4 * i)
                    previous (omega (arith, enough, place)))
              ∙ sym (take-append 4 rest (take end src) (omega (arith, count, before, place)))
              ∙ ap (take 4) (
                  sym (
                    drop-append (start + 4 * i) previous (take end src)
                      (omega (arith, before, place)))))
        | inr new ↦
            let j = end + 4 * i - reserve_buffer_size in
            let after : reserve_buffer_size ≤ end + 4 * i = ground (arith, new) in
            let left = end - j in
            rw new (
              sym (take-take 4 left (drop j src) (omega (arith, round, after)))
              ∙ ap (take 4) (
                  sym (
                    drop-past (start + 4 * i) j previous (take end src)
                      (omega (arith, place, after))
                    ∙ drop-take j end left src (omega (arith, round, after)))))
      ]

  -- The reserve that `update_reserve_buffer` takes from the previous buffer.
  abbrev pub tail_of : List Complex → List Complex
  tail_of previous =
      take reserve_buffer_size (drop (length previous - reserve_buffer_size) previous)

  read_rounds-stream :
      (dc : F.R × F.R) (previous src : List Complex) (k start n i : ℕ) (f : Frame F)
      (r : SymbolReader F dsp)
      → reserve_buffer_size ≤ length previous
      → 4 * (k + 1) ≤ length src
      → start + reserve_buffer_size ≡ length previous + 4 * (k + 1)
      → n + i ≡ 18
      → r.reserve_buffer ≡ tail_of previous
      → read_rounds F dsp dc src (4 * (k + 1)) n i f r
        ≡ read_stream dc n (drop (start + 4 * i) (previous ++ take (4 * (k + 1)) src)) f r
  unfolding read_rounds read_stream
  read_rounds-stream dc previous src k start zero i f r enough inside place count kept = refl
  read_rounds-stream dc previous src k start (suc n) i f r enough inside place count kept =
      let end = 4 * (k + 1) in
      let stream = previous ++ take end src in
      let here = symbol_samples F dsp r.reserve_buffer src end i in
      let full : length r.reserve_buffer ≡ reserve_buffer_size =
        ap length kept
        ∙ omega (
          arith,
          length-take reserve_buffer_size (drop (length previous - reserve_buffer_size) previous),
          length-drop (length previous - reserve_buffer_size) previous,
        ) in
      let (one, e, grown, same) =
        read_symbol-Grown F dsp dc here f r
          (symbol_samples-enough F dsp r.reserve_buffer src k i full inside (omega arith)) in
      let window : take 4 here ≡ take 4 (drop (start + 4 * i) stream) =
        ap (λ t. take 4 (symbol_samples F dsp t src end i)) kept
        ∙ symbol_samples-stream previous src k i start enough inside (omega arith) place in
      let e' = sym (read_symbol-cong dc here (drop (start + 4 * i) stream) f r window) ∙ e in
      bind-some (read_symbol F dsp dc here f r)
        (λ p. read_rounds F dsp dc src end n (i + 1) p.0 p.1) e
      ∙ read_rounds-stream dc previous src k start n (i + 1) one.0 one.1 enough inside place
          (omega arith) (same ∙ kept)
      ∙ ap (λ t. read_stream dc n t one.0 one.1)
          (sym (drop-drop 4 (start + 4 * i) (start + 4 * (i + 1)) stream (omega arith)))
      ∙ sym (
          bind-some (read_symbol F dsp dc (drop (start + 4 * i) stream) f r)
            (λ p. read_stream dc n (drop 4 (drop (start + 4 * i) stream)) p.0 p.1) e')

  -- With the reserve taken from the previous buffer, the reading of a preamble whose window ends at
  -- a symbol of the next buffer is the reading of 18 symbols from the two buffers in a row, from 72
  -- samples before that end.
  pub read_preamble-stream :
      (dc : F.R × F.R) (previous src : List Complex) (k : ℕ) (f : Frame F) (r : SymbolReader F dsp)
      → update_reserve_buffer previous (length previous) ≡ some r.reserve_buffer
      → 4 * (k + 1) ≤ length src
      → read_preamble F dsp dc src (4 * (k + 1)) f r
        ≡ read_stream dc 18
            (drop
              (length previous + 4 * (k + 1) - reserve_buffer_size)
              (previous ++ take (4 * (k + 1)) src))
            f
            r
  unfolding read_preamble update_reserve_buffer
  read_preamble-stream dc previous src k f r kept inside =
      elim (Bool-cases (ltb (length previous) reserve_buffer_size)) [
        | inl small ↦ absurd (cc (rw small at kept))
        | inr large ↦
            let start = length previous + 4 * (k + 1) - reserve_buffer_size in
            let enough : reserve_buffer_size ≤ length previous = ground (arith, large) in
            let whole : ltb (length previous) (length previous) ≡ false = ground arith in
            read_rounds-stream dc previous src k start 18 0 f r enough inside
              (omega (arith, enough)) refl (sym (cc (rw (large, whole) at kept)))
            ∙ ap (λ j. read_stream dc 18 (drop j (previous ++ take (4 * (k + 1)) src)) f r)
                (omega arith)
      ]

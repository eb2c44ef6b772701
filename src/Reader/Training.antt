-- ===== src/Reader/Training.antt =====
-- `train_preamble` of src/frame.cpp with the estimate of phase and frequency and the training of the
-- equaliser, over the samples of the preamble.
pub mod Answers
use openstint.Base.{
  Bool, List, Option, [], drop, none, replicate, some, suc, take, zero, ℕ, ◌*◌, ◌+◌, ◌>>=◌, ◌∷◌,
}
use openstint.Float.{Float}
use openstint.Transponder.{
  TransponderProtocol, transponder_props, preamble_symbols, preamble_upsampled,
}
use openstint.Detector.{Complex}
use openstint.Frame.{Frame}
use openstint.Reader.{load_preamble_buffer}
use openstint.Reader.Liquid.{Dsp, plus_c, times_c, conj, scale_c, norm_c, sign}

-- `SAMPLES_PER_SYMBOL` as frame.hpp has it by default. CMakeLists.txt sets it to 8 for the HackRF and to 2
-- for the RTL-SDR; nothing is said of these.
abbrev pub samples_per_symbol : ℕ
samples_per_symbol = 4

module _ (F : Float) (dsp : Dsp F) where
  open F use {R, add, sub, mul, div, neg, lit, of_ℕ}
  open dsp use {
    sqrt, arg, polar, Eqlms, eqlms_create, eqlms_reset, eqlms_set_bw, eqlms_push, eqlms_execute,
    eqlms_step, Modem, modem_create,
  }

  pub record SymbolReader : Type 0 where
    pub sym_eq : Eqlms
    pub bpsk_modem : Modem
    pub reserve_buffer : List Complex
    pub preamble_buffer : List (R × R)

  -- The constructor; the arrays of the static object start as zeros.
  abbrev pub new_symbol_reader : SymbolReader
  new_symbol_reader = record {
    sym_eq = eqlms_create (replicate 12 (lit 0 0, lit 0 0)) 12;
    bpsk_modem = modem_create;
    reserve_buffer = replicate 72 openstint.Detector.origin;
    preamble_buffer = replicate 72 (lit 0 0, lit 0 0);
  }

  -- `window_energy`
  unfoldable pub energy_from : R → List (R × R) → R
  energy_from acc [] = acc
  energy_from acc (x ∷ xs) = energy_from (add acc (norm_c F x)) xs

  -- The preamble's modulation stripped off: `y[i]`, as far as both go.
  unfoldable pub strip : List (R × R) → List Bool → List (R × R)
  strip [] ups = []
  strip (x ∷ xs) [] = []
  strip (x ∷ xs) (u ∷ ups) = scale_c F x (sign F u) ∷ strip xs ups

  -- `acc += y[i] * std::conj(y[i - 8])`: the list from 8 on beside the whole list.
  unfoldable pub correlate : R × R → List (R × R) → List (R × R) → R × R
  correlate acc [] before = acc
  correlate acc (x ∷ xs) [] = acc
  correlate acc (x ∷ xs) (b ∷ before) = correlate (plus_c F acc (times_c F x (conj F b))) xs before

  -- `psum`, from the index `i` on.
  unfoldable pub derotated_sum : R → R × R → ℕ → List (R × R) → R × R
  derotated_sum dphi acc i [] = acc
  derotated_sum dphi acc i (y ∷ ys) =
      let k = div (of_ℕ i) (of_ℕ samples_per_symbol) in
      derotated_sum dphi (plus_c F acc (times_c F y (polar (lit 1 0) (mul (neg k) dphi)))) (i + 1)
        ys

  -- The phase at the start of the preamble and the phase to a symbol.
  unfoldable pub estimate_phase_freq : TransponderProtocol → List (R × R) → ℕ → R × R
  unfolding strip correlate derotated_sum
  estimate_phase_freq protocol buffer shift =
      let up = preamble_upsampled samples_per_symbol (transponder_props protocol).preamble in
      let y = strip (take 64 (drop 4 buffer)) up in
      let zero_c : R × R = (lit 0 0, lit 0 0) in
      let acc = correlate zero_c (drop (samples_per_symbol * shift) y) y in
      let dphi = div (arg acc) (of_ℕ shift) in (arg (derotated_sum dphi zero_c 0 y), dphi)

  -- `n` pushes from the buffer, and what is left of it; `none` is a read past its end.
  unfoldable pub push_from : ℕ → List (R × R) → Eqlms → Option (List (R × R) × Eqlms)
  push_from zero buffer eq = some (buffer, eq)
  push_from (suc n) [] eq = none
  push_from (suc n) (x ∷ buffer) eq = push_from n buffer (eqlms_push eq x)

  -- The loop over the preamble's symbols after the first, each with four more samples.
  unfoldable pub train_symbols : List Bool → List (R × R) → Eqlms → Option Eqlms
  train_symbols [] buffer eq = some eq
  train_symbols (s ∷ syms) buffer eq = do
    (rest, pushed) ← push_from samples_per_symbol buffer eq
    train_symbols syms rest (eqlms_step pushed (sign F s, lit 0 0) (eqlms_execute pushed))

  -- The loop with its first round, which pushes nothing.
  unfoldable pub train_all : List Bool → List (R × R) → Eqlms → Option Eqlms
  train_all [] buffer eq = some eq
  train_all (s ∷ syms) buffer eq =
      train_symbols syms buffer (eqlms_step eq (sign F s, lit 0 0) (eqlms_execute eq))

  unfoldable pub train_fseq : TransponderProtocol → List (R × R) → R → Eqlms → Option Eqlms
  train_fseq protocol buffer mu eq = do
    (rest, primed) ← push_from (3 * samples_per_symbol) buffer (eqlms_set_bw eq mu)
    train_all (preamble_symbols (transponder_props protocol).preamble) rest primed

  -- The loop that scales and rotates the buffer, from the index `i` on.
  unfoldable pub rotate : R → R → R → ℕ → List (R × R) → List (R × R)
  rotate scale phase0 per_symbol i [] = []
  rotate scale phase0 per_symbol i (x ∷ xs) =
      let k = sub (div (of_ℕ i) (of_ℕ samples_per_symbol)) (of_ℕ 1) in
      times_c F x (polar scale (sub (mul (neg k) per_symbol) phase0))
      ∷ rotate scale phase0 per_symbol (i + 1) xs

  -- `0.05f * samples_per_symbol`
  abbrev pub eq_mu_train : R
  eq_mu_train = mul (lit 5 2) (of_ℕ samples_per_symbol)

  -- The three epochs.
  unfoldable pub train_epochs : TransponderProtocol → List (R × R) → Eqlms → Option Eqlms
  train_epochs protocol buffer eq = do
    eq1 ← train_fseq protocol buffer (mul eq_mu_train (lit 3 0)) eq
    eq2 ← train_fseq protocol buffer eq_mu_train eq1
    train_fseq protocol buffer eq_mu_train eq2

  -- The frame with its scale and phase, and the buffer scaled and rotated.
  unfoldable pub estimate : List (R × R) → Frame F → Frame F × List (R × R)
  unfolding energy_from estimate_phase_freq
  estimate loaded f =
      let scale = div (lit 141 2) (sqrt (div (energy_from (lit 0 0) loaded) (of_ℕ 18))) in
      let (phase0, per_symbol) = estimate_phase_freq f.transponder_protocol loaded 2 in
      (
        record f {
          symbol_scale = scale;
          phase = sub phase0 (mul per_symbol (of_ℕ 1));
          phase_per_symbol = per_symbol;
        },
        rotate scale phase0 per_symbol 0 loaded,
      )

  -- What the reader keeps of a training: the equaliser with its bandwidth for data, and the buffer.
  abbrev pub trained : SymbolReader → List (R × R) → Eqlms → SymbolReader
  trained r buffer eq = record r {
    sym_eq = eqlms_set_bw eq (mul eq_mu_train (lit 2 0));
    preamble_buffer = buffer;
  }

  -- `train_preamble` once the buffer is loaded.
  unfoldable pub train_loaded :
      List (R × R) → Frame F → SymbolReader → Option (Frame F × SymbolReader)
  train_loaded loaded f r =
      let (f', buffer) = estimate loaded f in
      do
        eq ← train_epochs f.transponder_protocol buffer (eqlms_reset r.sym_eq)
        some (f', trained r buffer eq)

  unfoldable pub train_preamble :
      R × R → List Complex → ℕ → Frame F → SymbolReader → Option (Frame F × SymbolReader)
  train_preamble dc src end f r = do
    loaded ← load_preamble_buffer F dc r.reserve_buffer src end
    train_loaded loaded f r

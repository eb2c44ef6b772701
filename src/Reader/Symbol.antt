-- ===== src/Reader/Symbol.antt =====
-- `read_symbol` and `read_preamble` of src/frame.cpp: one symbol through the equaliser and the modem,
-- and the preamble's 18 symbols read as data.
pub mod Stream
pub mod Count
use openstint.Base.{
  List, Option, [], drop, if◌then◌else◌, ltb, none, some, suc, zero, ℕ, ◌*◌, ◌++◌, ◌+◌, ◌-◌, ◌>>=◌,
  ◌∷◌,
}
use openstint.Float.{Float}
use openstint.Detector.{Complex}
use openstint.Frame.{Frame}
use openstint.Reader.{centred, reserve_buffer_size}
use openstint.Reader.Liquid.{Dsp, times_c}
use openstint.Reader.Training.{SymbolReader, samples_per_symbol}

module _ (F : Float) (dsp : Dsp F) where
  open F use {R, add, sub, mul, div, neg, lit, of_ℕ}
  open dsp use {
    arg, polar, Eqlms, eqlms_push, eqlms_execute, eqlms_step, demodulate_soft, demodulator_evm,
    demodulator_sample,
  }

  -- `costas_tune_correction`
  unfoldable pub costas_tune_correction : Frame F → R × R → Frame F
  costas_tune_correction f symbol =
      let error = div (arg (times_c F symbol symbol)) (lit 2 0) in
      let per_symbol = add f.phase_per_symbol (mul (lit 2 3) error) in
      record f {
        phase_per_symbol = per_symbol;
        phase = add f.phase (add per_symbol (mul (lit 2 2) error));
      }

  -- The loop over the samples from `i` on, `n` of them; `none` is a read past their end.
  unfoldable pub push_samples : R × R → Frame F → ℕ → ℕ → List Complex → Eqlms → Option Eqlms
  push_samples dc f zero i src eq = some eq
  push_samples dc f (suc n) i [] eq = none
  push_samples dc f (suc n) i (s ∷ src) eq =
      let phase_step = div f.phase_per_symbol (of_ℕ samples_per_symbol) in
      let turn = polar f.symbol_scale (neg (add f.phase (mul (of_ℕ i) phase_step))) in
      push_samples dc f n (i + 1) src (eqlms_push eq (times_c F (centred F dc s) turn))

  -- The rest of `read_symbol`, with the samples in the equaliser.
  unfoldable pub demodulate : Eqlms → Frame F → SymbolReader F dsp → Frame F × SymbolReader F dsp
  unfolding costas_tune_correction
  demodulate eq f r =
      let symbol = eqlms_execute eq in
      let tuned = costas_tune_correction f symbol in
      let (soft_bit, modem) = demodulate_soft r.bpsk_modem symbol in
      (
        record tuned {
          softbits = tuned.softbits ++ soft_bit ∷ [];
          symbols = tuned.symbols ++ symbol ∷ [];
          evm_sum = add tuned.evm_sum (demodulator_evm modem);
        },
        record r { sym_eq = eqlms_step eq (demodulator_sample modem) symbol; bpsk_modem = modem },
      )

  unfoldable pub read_symbol :
      R × R → List Complex → Frame F → SymbolReader F dsp → Option (Frame F × SymbolReader F dsp)
  read_symbol dc src f r = do
    eq ← push_samples dc f samples_per_symbol 0 src r.sym_eq
    some (demodulate eq f r)

  -- The samples of round `i` of `read_preamble`: `sample_idx` is `end + 4 * i - 72`, and before the
  -- buffer they are read from the reserve, never across its end.
  abbrev pub symbol_samples : List Complex → List Complex → ℕ → ℕ → List Complex
  symbol_samples reserve src end i =
      if ltb (end + 4 * i) reserve_buffer_size
      then drop (end + 4 * i) reserve
      else drop (end + 4 * i - reserve_buffer_size) src

  -- The loop of `read_preamble` from round `i` on, `n` rounds of it.
  unfoldable pub read_rounds :
      R × R
      → List Complex
      → ℕ
      → ℕ
      → ℕ
      → Frame F
      → SymbolReader F dsp
      → Option (Frame F × SymbolReader F dsp)
  read_rounds dc src end zero i f r = some (f, r)
  read_rounds dc src end (suc n) i f r = do
    (f', r') ← read_symbol dc (symbol_samples r.reserve_buffer src end i) f r
    read_rounds dc src end n (i + 1) f' r'

  unfoldable pub read_preamble :
      R × R
      → List Complex
      → ℕ
      → Frame F
      → SymbolReader F dsp
      → Option (Frame F × SymbolReader F dsp)
  read_preamble dc src end f r = read_rounds dc src end 18 0 f r

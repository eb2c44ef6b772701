-- ===== src/Reader/Liquid.antt =====
-- `std::complex<float>`, the functions of the standard library on it, and liquid's equaliser and
-- modem, as src/frame.cpp uses them.
use openstint.Base.{Bool, List, false, true, ℕ}
use openstint.Float.{Float}

-- liquid's `eqlms_cccf` and `modemcf`, with the state that a handle points to as a value, and
-- `std::sqrt`, `std::abs`, `std::arg` and `std::polar`.
pub record Dsp (F : Float) : Type 1 where
  pub sqrt : F.R → F.R
  pub abs : F.R × F.R → F.R
  pub arg : F.R × F.R → F.R
  pub polar : F.R → F.R → F.R × F.R
  pub Eqlms : Type 0
  -- the coefficients and their number
  pub eqlms_create : List (F.R × F.R) → ℕ → Eqlms
  pub eqlms_reset : Eqlms → Eqlms
  pub eqlms_set_bw : Eqlms → F.R → Eqlms
  pub eqlms_push : Eqlms → F.R × F.R → Eqlms
  pub eqlms_execute : Eqlms → F.R × F.R
  pub eqlms_step : Eqlms → F.R × F.R → F.R × F.R → Eqlms
  pub Modem : Type 0
  pub modem_create : Modem
  -- the soft bit, a byte
  pub demodulate_soft : Modem → F.R × F.R → ℕ × Modem
  pub demodulator_evm : Modem → F.R
  pub demodulator_sample : Modem → F.R × F.R

module _ (F : Float) where
  open F use {R, add, sub, mul, neg, lit}

  abbrev pub plus_c : R × R → R × R → R × R
  plus_c a b = (add a.0 b.0, add a.1 b.1)

  abbrev pub times_c : R × R → R × R → R × R
  times_c a b = (sub (mul a.0 b.0) (mul a.1 b.1), add (mul a.0 b.1) (mul a.1 b.0))

  abbrev pub conj : R × R → R × R
  conj a = (a.0, neg a.1)

  abbrev pub scale_c : R × R → R → R × R
  scale_c a x = (mul a.0 x, mul a.1 x)

  abbrev pub norm_c : R × R → R
  norm_c a = add (mul a.0 a.0) (mul a.1 a.1)

  -- A preamble symbol as a number.
  abbrev pub sign : Bool → R
  sign true = lit 1 0
  sign false = neg (lit 1 0)

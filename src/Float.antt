-- ===== src/Float.antt =====
-- The machine's floating-point numbers and its `log10`, `pow`, ... as a parameter. No arithmetic
-- law is assumed; a theorem that needs one names it among its hypotheses.
use openstint.Base.{Bool, ℕ}

pub record Float : Type 1 where
  pub R : Type 0
  -- `a < b`, false where one of them is not a number
  pub lt : R → R → Bool
  -- `a <= b`
  pub le : R → R → Bool
  pub add : R → R → R
  pub sub : R → R → R
  pub mul : R → R → R
  pub div : R → R → R
  pub neg : R → R
  -- the literal `m / 10 ^ e`
  pub lit : ℕ → ℕ → R
  -- the conversions between unsigned integers and numbers
  pub of_ℕ : ℕ → R
  pub to_ℕ : R → ℕ
  pub pow10 : R → R
  pub log10 : R → R

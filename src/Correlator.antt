-- ===== src/Correlator.antt =====
-- `Preamble` and `CircBuff` of src/preamble.hpp, for 16-bit words: the matched filter over the last 16
-- differential symbols.
pub mod Window
pub mod Rotation
pub mod Square
use openstint.Base.{
  Bool, List, [], bit_and, false, get_or, if◌then◌else◌, ltb, replicate, set, suc, take, zero, ℕ,
  ◌%◌, ◌*◌, ◌+◌, ◌-◌, ◌==◌, ◌^◌, ◌∷◌,
}
use openstint.Base.Int.{ℤ, pos, negsuc, ◌+ℤ◌, ◌*ℤ◌, ltb_ℤ, quot, sub_ℕ, abs_ℕ, pos_part, neg_part}
use openstint.Float.{Float}

abbrev pub bit_count : ℕ
bit_count = 16

-- `(preamble & mask) ? +1 : -1`, the most significant bit first, with `n` bits left.
unfoldable pub pattern_row : ℕ → ℕ → List ℤ
pattern_row zero preamble = []
pattern_row (suc n) preamble =
    (if bit_and preamble (2 ^ n) == 0 then negsuc 0 else pos 1) ∷ pattern_row n preamble

-- The next row: the last entry comes first, the others move on by one.
abbrev pub shift_row : List ℤ → List ℤ
shift_row row = get_or row 15 (pos 0) ∷ take 15 row

-- `pattern[phase]`
unfoldable pub pattern_at : ℕ → List ℤ → List ℤ
pattern_at zero row = row
pattern_at (suc phase) row = shift_row (pattern_at phase row)

-- The sum of `buffer[i] * row[i]`. Both have 16 entries below 2 ^ 15, so no `int32_t` sum wraps.
unfoldable pub dot_product : List ℤ → List ℤ → ℤ
dot_product [] row = pos 0
dot_product (x ∷ buffer) [] = pos 0
dot_product (x ∷ buffer) (p ∷ row) = x *ℤ p +ℤ dot_product buffer row

unfoldable pub dot : ℕ → List ℤ → ℕ → ℤ
dot preamble buffer phase = dot_product buffer (pattern_at phase (pattern_row bit_count preamble))

pub record CircBuff : Type 0 where
  pub phase : ℕ
  pub buff : List ℤ
  pub buff_e : List ℕ
  pub window_energy : ℕ

abbrev pub new_buff : CircBuff
new_buff = record {
  phase = 0;
  buff = replicate 16 (pos 0);
  buff_e = replicate 16 0;
  window_energy = 0;
}

-- `uint64_t` sums and differences.
abbrev pub add64 : ℕ → ℕ → ℕ
add64 a b = (a + b) % 2 ^ 64

abbrev pub sub64 : ℕ → ℕ → ℕ
sub64 a b = (a + 2 ^ 64 - b) % 2 ^ 64

unfoldable pub push : ℤ → ℕ → CircBuff → CircBuff
push symbol energy c = record {
  phase = (c.phase + 1) % bit_count;
  buff = set c.buff c.phase symbol;
  buff_e = set c.buff_e c.phase energy;
  window_energy = add64 c.window_energy (sub64 energy (get_or c.buff_e c.phase 0));
}

unfoldable pub clear_next : CircBuff → CircBuff
clear_next c = record c {
  buff = set c.buff c.phase (pos 0);
  buff_e = set c.buff_e c.phase 0;
  window_energy = sub64 c.window_energy (get_or c.buff_e c.phase 0);
}

-- An `int32_t` product, in two's complement.
abbrev pub wrap32 : ℕ → ℤ
wrap32 n = let w = n % 2 ^ 32 in if ltb w (2 ^ 31) then pos w else sub_ℕ w (2 ^ 32)

unfoldable pub square32 : ℤ → ℤ
square32 a = wrap32 (abs_ℕ a * abs_ℕ a)

module _ (F : Float) where
  open F use {lt, mul, div, of_ℕ, neg}

  abbrev pub of_ℤ : ℤ → F.R
  of_ℤ (pos n) = of_ℕ n
  of_ℤ (negsuc n) = neg (of_ℕ (suc n))

  unfoldable pub match_preamble : ℕ → F.R → CircBuff → Bool
  match_preamble preamble threshold c =
      let corr = dot preamble c.buff c.phase in
      if ltb_ℤ (negsuc 47) corr
      then false
      else lt (mul threshold (of_ℕ c.window_energy)) (of_ℤ (square32 (quot corr 4)))

  unfoldable pub calc_metric : ℕ → CircBuff → F.R
  calc_metric preamble c =
      let corr = dot preamble c.buff c.phase in
      div (of_ℕ (abs_ℕ corr * abs_ℕ corr)) (of_ℕ (16 * c.window_energy % 2 ^ 64))

-- ===== src/Correlator/Square.antt =====
-- When the squared correlation of `match_preamble` fits its `int32_t`.
use native.Mathlib.Decide.{dec_lt}
use openstint.Base.{
  Bool, Bool-cases, List, arith, inl, inr, negb, refl, ℕ, ◌&&◌, ◌*◌, ◌<◌, ◌^◌, ◌↔◌, ◌≡◌, ◌≢◌, ◌≤◌,
}
use openstint.Base.Int.{ℤ, pos, negsuc, abs_ℕ, ltb_ℤ, quot}
use openstint.Float.{Float}
use openstint.Correlator.{CircBuff, dot_product, pattern_row, square32, wrap32, match_preamble}
use openstint.Correlator.Window.{IsValid, window, sum}
use openstint.Correlator.Rotation.{dot-window}

square_mono : (a b : ℕ) → a ≤ b → a * a ≤ b * b
square_mono a b h = grind arith

wrap32-exact : (m : ℕ) → m < 2 ^ 31 → wrap32 m ≡ pos m
wrap32-exact m h = ground arith

wrap32-large : (m : ℕ) → 2 ^ 31 ≤ m → wrap32 m ≢ pos m
wrap32-large m h = ground arith

-- The square that `match_preamble` computes is the true square exactly if the correlation, after
-- its division by 4, is at most 46340 in size (for a correlation of sixteen 16-bit symbols).
square32-exact_iff :
    (a : ℤ) → abs_ℕ a < 2 ^ 18 → (square32 a ≡ pos (abs_ℕ a * abs_ℕ a)) ↔ (abs_ℕ a ≤ 46340)
unfolding square32
square32-exact_iff a h = (
  λ e. elim (dec_lt 46340 (abs_ℕ a)) [
    | yes p ↦
        absurd (wrap32-large (abs_ℕ a * abs_ℕ a) (omega (arith, square_mono 46341 (abs_ℕ a) p)) e)
    | no p ↦ omega arith
  ],
  λ p. wrap32-exact (abs_ℕ a * abs_ℕ a) (omega (arith, square_mono (abs_ℕ a) 46340 p)),
)

-- The decision with whole numbers, over the last 16 symbols and their energy in the order in which
-- they came: the correlation with the preamble's signs is at most -48, and the square of its quarter
-- is above the threshold's share of the energy.
abbrev pub matches_exactly : (F : Float) → ℕ → F.R → List ℤ → ℕ → Bool
matches_exactly F preamble threshold symbols energy =
    let corr = dot_product symbols (pattern_row 16 preamble) in
    let quarter = abs_ℕ (quot corr 4) in
    negb (ltb_ℤ (negsuc 47) corr)
    && F.lt (F.mul threshold (F.of_ℕ energy)) (F.of_ℕ (quarter * quarter))

-- `match_preamble` decides as it would with whole numbers, over the symbols in the order in which they
-- came, as long as the quarter of their correlation is at most 46340 in size: its `int32_t` square
-- is exact then.
pub match_preamble-exact :
    (F : Float) (preamble : ℕ) (threshold : F.R) (c : CircBuff)
    → IsValid c
    → abs_ℕ (quot (dot_product (window c.phase c.buff) (pattern_row 16 preamble)) 4) ≤ 46340
    → match_preamble F preamble threshold c
      ≡ matches_exactly F preamble threshold (window c.phase c.buff) (sum c.buff_e)
unfolding match_preamble
match_preamble-exact F preamble threshold c v small =
    let corr : ℤ = dot_product (window c.phase c.buff) (pattern_row 16 preamble) in
    let q : ℤ = quot corr 4 in
    let exact : square32 q ≡ pos (abs_ℕ q * abs_ℕ q) =
      (square32-exact_iff q (omega (arith, small))).1 small in
    rw (dot-window preamble c v, exact, v.summed)
      (elim (Bool-cases (ltb_ℤ (negsuc 47) corr)) [
        | inl weak ↦ rw weak refl
        | inr strong ↦ rw strong refl
      ])

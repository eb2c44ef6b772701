-- ===== src/Frame/Preamble.antt =====
-- Where `preamble_pos` finds a preamble.
use native.Mathlib.Numerals.{add-one}
use native.Mathlib.Decide.{ℕ_discrete}
use openstint.Base.{
  Bool, Bool-cases, Option, arith, div-pow-suc, false, inl, inr, none, refl, some, suc, true, zero,
  ℕ, ◌+◌, ◌-◌, ◌/◌, ◌<◌, ◌^◌, ◌≡◌, ◌≤◌,
}
use openstint.Frame.{preamble_fits, search_preamble, preamble_pos}

-- The preamble fits at this place of the 32 bits, counted from their first.
abbrev pub fits_at : ℕ → ℕ → ℕ → Bool
fits_at sof preamble pos = preamble_fits (sof / 2 ^ (16 - pos)) preamble

-- The last place that fits, and none only if no place does.
abbrev pub IsLast : ℕ → ℕ → Option ℕ → Type 0
IsLast sof preamble none = (pos : ℕ) → pos ≤ 16 → fits_at sof preamble pos ≡ false
IsLast sof preamble (some pos) =
    (pos ≤ 16)
    × (fits_at sof preamble pos ≡ true)
    × ((later : ℕ) → pos < later → later ≤ 16 → fits_at sof preamble later ≡ false)

module _ (sof preamble : ℕ) where
  fits_here :
      (i s : ℕ) {b : Bool}
      → i ≤ 16
      → s ≡ sof / 2 ^ i
      → preamble_fits s preamble ≡ b
      → fits_at sof preamble (16 - i) ≡ b
  fits_here i s hi hs h = let back : 16 - (16 - i) ≡ i = omega arith in rw (back, ← hs) h

  search-IsLast :
      (n i s : ℕ)
      → i + n ≡ 17
      → s ≡ sof / 2 ^ i
      → ((later : ℕ) → 16 < later + i → later ≤ 16 → fits_at sof preamble later ≡ false)
      → IsLast sof preamble (search_preamble n i s preamble)
  unfolding search_preamble
  search-IsLast zero i s hi hs later_fail = λ pos h. later_fail pos (omega arith) h
  search-IsLast (suc n) i s hi hs later_fail = elim (Bool-cases (preamble_fits s preamble)) [
    | inl hit ↦ rw hit (
      omega arith,
      fits_here i s (omega arith) hs hit,
      λ later p q. later_fail later (omega arith) q,
    )
    | inr miss ↦ rw miss (
        search-IsLast n (i + 1) (s / 2) (omega arith) (rw (hs, add-one i, div-pow-suc i sof))
          (λ later p q. elim (ℕ_discrete later (16 - i)) [
            | yes e ↦ rw e (fits_here i s (omega arith) hs miss)
            | no ne ↦ later_fail later (omega arith) q
          ]))
  ]

-- `preamble_pos` answers the last place of the 32 bits at which at most two of the preamble's 16
-- bits differ, and -1 exactly if there is none.
pub preamble_pos-IsLast : (sof preamble : ℕ) → IsLast sof preamble (preamble_pos sof preamble)
unfolding preamble_pos
preamble_pos-IsLast sof preamble =
    search-IsLast sof preamble 17 0 sof refl (omega arith) (λ later p q. absurd (omega arith))

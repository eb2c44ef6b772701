-- ===== src/Programs/Arguments/Gains.antt =====
-- The gains that src/main_hackrf.cpp takes from its command line.
use openstint.Base.{
  Bool, Bool-cases, List, Option, [], arith, if◌then◌else◌, inl, inr, ltb, none, refl, some, subst,
  true, ℕ, ◌%◌, ◌*◌, ◌++◌, ◌/◌, ◌>>=◌, ◌∷◌, ◌≡◌, ◌≤◌,
}
use openstint.Programs.Arguments.{
  CommonArguments, HackrfArguments, new_hackrf, is_option, valued, atoi, uint8_of,
  parse_common_arguments, with_lna, with_vga, hackrf_flag, hackrf_argument, hackrf_arguments,
}

-- The gains that the HackRF has, in its steps.
pub record AreGains (lna vga : ℕ) : Type 0 where
  pub lna_max : lna ≤ 40
  pub lna_step : lna % 8 ≡ 0
  pub vga_max : vga ≤ 62
  pub vga_step : vga % 2 ≡ 0

abbrev pub HasGains : HackrfArguments → Type 0
HasGains a = AreGains a.lna_gain a.vga_gain

abbrev Kept : Option (HackrfArguments × Bool) → Type 0
Kept none = Unit
Kept (some out) = HasGains out.0

abbrev Set : Option HackrfArguments → Type 0
Set none = Unit
Set (some a) = HasGains a

with_lna-HasGains : (value : List ℕ) (a : HackrfArguments) → HasGains a → Set (with_lna value a)
unfolding with_lna
with_lna-HasGains value a v = elim (Bool-cases (ltb 40 (uint8_of (atoi value) / 8 * 8))) [
  | inl large ↦ rw large tt
  | inr fits ↦ rw fits (record {
    lna_max = ground (arith, fits);
    lna_step = omega arith;
    vga_max = v.vga_max;
    vga_step = v.vga_step;
  })
]

with_vga-HasGains : (value : List ℕ) (a : HackrfArguments) → HasGains a → Set (with_vga value a)
unfolding with_vga
with_vga-HasGains value a v = elim (Bool-cases (ltb 62 (uint8_of (atoi value) / 2 * 2))) [
  | inl large ↦ rw large tt
  | inr fits ↦ rw fits (record {
    lna_max = v.lna_max;
    lna_step = v.lna_step;
    vga_max = ground (arith, fits);
    vga_step = omega arith;
  })
]

Set-taken : (o : Option HackrfArguments) → Set o → Kept (o >>= λ a. some (a, true))
Set-taken none v = tt
Set-taken (some a) v = v

-- Other fields do not matter.
common-Kept :
    (a : HackrfArguments) (o : Option (CommonArguments × Bool))
    → HasGains a
    → Kept (o >>= λ p. some (record a { common = p.0 }, p.1))
common-Kept a none v = tt
common-Kept a (some p) v = v

hackrf_flag-Kept :
    (arg : List ℕ) (next : Option (List ℕ)) (a : HackrfArguments)
    → HasGains a
    → Kept (hackrf_flag arg next a)
unfolding hackrf_flag
hackrf_flag-Kept arg next a v = elim (Bool-cases (is_option 98 arg)) [
  | inl tee ↦ rw tee v
  | inr no_tee ↦ elim (Bool-cases (is_option 97 arg)) [
    | inl amp ↦ rw (no_tee, amp) v
    | inr no_amp ↦
        rw (no_tee, no_amp)
          (elim (valued 99 arg next)
            as (λ o. Kept (elim o [
              | some file ↦ some (record a { capture_files = a.capture_files ++ file ∷ [] }, true)
              | none ↦ parse_common_arguments arg next a.common >>= λ p.
                  some (record a { common = p.0 }, p.1)
            ])) [
              | some file ↦ v
              | none ↦ common-Kept a (parse_common_arguments arg next a.common) v
            ])
  ]
]

hackrf_argument-Kept :
    (arg : List ℕ) (next : Option (List ℕ)) (a : HackrfArguments)
    → HasGains a
    → Kept (hackrf_argument arg next a)
unfolding hackrf_argument
hackrf_argument-Kept arg next a v =
    elim (valued 100 arg next)
      as (λ o. Kept (elim o [
        | some serial ↦ some (record a { serial = some serial }, true)
        | none ↦ elim (valued 108 arg next) [
          | some gain ↦ with_lna gain a >>= λ b. some (b, true)
          | none ↦ elim (valued 118 arg next) [
            | some gain ↦ with_vga gain a >>= λ b. some (b, true)
            | none ↦ hackrf_flag arg next a
          ]
        ]
      ])) [
        | some serial ↦ v
        | none ↦
            elim (valued 108 arg next)
              as (λ o. Kept (elim o [
                | some gain ↦ with_lna gain a >>= λ b. some (b, true)
                | none ↦ elim (valued 118 arg next) [
                  | some gain ↦ with_vga gain a >>= λ b. some (b, true)
                  | none ↦ hackrf_flag arg next a
                ]
              ])) [
                | some gain ↦ Set-taken (with_lna gain a) (with_lna-HasGains gain a v)
                | none ↦
                    elim (valued 118 arg next)
                      as (λ o. Kept (elim o [
                        | some gain ↦ with_vga gain a >>= λ b. some (b, true)
                        | none ↦ hackrf_flag arg next a
                      ])) [
                        | some gain ↦ Set-taken (with_vga gain a) (with_vga-HasGains gain a v)
                        | none ↦ hackrf_flag-Kept arg next a v
                      ]
              ]
      ]

then-Set :
    (o : Option (HackrfArguments × Bool)) (rest : HackrfArguments × Bool → Option HackrfArguments)
    → Kept o
    → ((out : HackrfArguments × Bool) → HasGains out.0 → Set (rest out))
    → Set (o >>= rest)
then-Set none rest v h = tt
then-Set (some out) rest v h = h out v

hackrf_arguments-Set :
    (args : List (List ℕ)) (a : HackrfArguments) → HasGains a → Set (hackrf_arguments args a)
unfolding hackrf_arguments
hackrf_arguments-Set [] a v = v
hackrf_arguments-Set (arg ∷ []) a v =
    then-Set (hackrf_argument arg none a) (λ p. some p.0) (hackrf_argument-Kept arg none a v)
      (λ out w. w)
hackrf_arguments-Set (arg ∷ next ∷ args) a v =
    then-Set (hackrf_argument arg (some next) a)
      (λ p. if p.1 then hackrf_arguments args p.0 else hackrf_arguments (next ∷ args) p.0)
      (hackrf_argument-Kept arg (some next) a v)
      (λ out w. elim (Bool-cases out.1) [
        | inl taken ↦ rw taken (hackrf_arguments-Set args out.0 w)
        | inr left ↦ rw left (hackrf_arguments-Set (next ∷ args) out.0 w)
      ])

-- A command line that is accepted leaves gains that the HackRF has: up to 40 in steps of 8 for the
-- LNA, up to 62 in steps of 2 for the VGA, whatever numbers it names.
pub hackrf_arguments-HasGains :
    (args : List (List ℕ)) (a : HackrfArguments)
    → hackrf_arguments args new_hackrf ≡ some a
    → HasGains a
hackrf_arguments-HasGains args a e = subst Set e (
    hackrf_arguments-Set args new_hackrf
      (record { lna_max = omega arith; lna_step = refl; vga_max = omega arith; vga_step = refl }))

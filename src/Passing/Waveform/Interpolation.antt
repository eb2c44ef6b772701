-- ===== src/Passing/Waveform/Interpolation.antt =====
-- Where the interpolation of src/passing.cpp reads.
use openstint.Base.{
  Bool-cases, List, arith, false, inl, inr, length, ltb, subst, suc, sym, true, zero, ℕ, ◌%◌, ◌+◌,
  ◌-◌, ◌<◌, ◌==◌, ◌^◌, ◌≡◌, ◌≤◌, ◌⊎◌,
}
use openstint.Float.{Float}
use openstint.Passing.Waveform.{at, advance}

module _ (F : Float) where
  open F use {R, lt}

  -- The index from which the loop of `interp` may go on to `last`: the two samples that it is between
  -- are in range, it did not go back, it passed only samples below `xi`, and it stopped at the last
  -- pair or before a sample that is not below `xi`.
  pub record IsBracket (x : List R) (xi : R) (j j' : ℕ) : Type 0 where
    pub inside : j' + 1 < length x
    pub forward : j ≤ j'
    pub passed : (k : ℕ) → j < k → k ≤ j' → lt (at F x k) xi ≡ true
    pub stopped : (j' + 2 ≡ length x) ⊎ (lt (at F x (j' + 1)) xi ≡ false)

  advance-fuel :
      (fuel : ℕ) (x : List R) (xi : R) (j : ℕ)
      → length x < 2 ^ 64
      → j + 1 < length x
      → length x ≤ fuel + j + 2
      → IsBracket x xi j (advance F fuel x xi j)
  unfolding advance
  advance-fuel zero x xi j small inside enough = record {
    inside = inside;
    forward = omega arith;
    passed = λ k lo hi. absurd (omega (arith, lo, hi));
    stopped = inl (omega (arith, inside, enough));
  }
  advance-fuel (suc fuel) x xi j small inside enough =
      let size : (length x + 2 ^ 64 - 2) % 2 ^ 64 ≡ length x - 2 = omega (arith, small, inside) in
      elim (Bool-cases (ltb j (length x - 2))) [
        | inr last ↦
            rw (size, last)
              (record {
                inside = inside;
                forward = omega arith;
                passed = λ k lo hi. absurd (omega (arith, lo, hi));
                stopped = inl (ground (arith, inside, last));
              })
        | inl more ↦ elim (Bool-cases (lt (at F x (j + 1)) xi)) [
          | inr above ↦
              rw (size, more, above)
                (record {
                  inside = inside;
                  forward = omega arith;
                  passed = λ k lo hi. absurd (omega (arith, lo, hi));
                  stopped = inr above;
                })
          | inl below ↦
              let further : j + 1 + 1 < length x = ground (arith, more) in
              let rest = advance-fuel fuel x xi (j + 1) small further (omega (arith, enough)) in
              rw (size, more, below)
                (record {
                  inside = rest.inside;
                  forward = omega (arith, rest.forward);
                  passed = λ k lo hi. elim (Bool-cases (k == j + 1)) [
                    | inl same ↦
                        let e : k ≡ j + 1 = ground (arith, same) in
                        subst (λ i. lt (at F x i) xi ≡ true) (sym e) below
                    | inr other ↦ rest.passed k (ground (arith, lo, other)) hi
                  ];
                  stopped = rest.stopped;
                })
        ]
      ]

  -- The loop of `interp` is between two samples of a waveform of two samples or more when it ends,
  -- from any index that is: both its reads are in range, it has passed just the samples below the
  -- point, and its `size_t` bound does not wrap. Its rounds, as many as there are samples, are
  -- enough.
  pub advance-IsBracket :
      (x : List R) (xi : R) (j : ℕ)
      → length x < 2 ^ 64
      → j + 1 < length x
      → IsBracket x xi j (advance F (length x) x xi j)
  advance-IsBracket x xi j small inside = advance-fuel (length x) x xi j small inside (omega arith)

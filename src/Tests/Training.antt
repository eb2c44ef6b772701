-- ===== src/Tests/Training.antt =====
-- Tests of the RC4 registry and the trainer.
use openstint.Base.{List, [], arith, inr, some, suc, zero, ℕ, ◌+◌, ◌∷◌, ◌≢◌, ◌≤◌}
use openstint.Base.Int.{negsuc}
use openstint.Rc4.Registry.{Registry, lookup, store, remove, reserve, new_registry}
use openstint.Rc4.Registry.Fresh.{
  Op, stores, removes, run, step, IsCounted, run-IsCounted, store_auto_fresh,
}
use openstint.Rc4.Trainer.{Entry, Trainer, training, evaluate}
use openstint.Rc4.Trainer.Invariant.{IsSafe, Answers, evaluate-Answers}
use openstint.Tests.{whole}

abbrev known : Registry
known = record { registry = (7, 1000) ∷ (9, 1001) ∷ (12, 1000) ∷ []; next_transponder = 1002 }

abbrev history : List Op
history = stores 0 (8 ∷ []) ∷ stores 1234 (9 ∷ []) ∷ removes 1000 ∷ stores 0 (8 ∷ 11 ∷ []) ∷ []

run-IsCounted_example : IsCounted 4 (run history new_registry)
run-IsCounted_example = run-IsCounted history (omega arith)

store_auto_fresh_example :
    let id = (store 0 (5 ∷ []) (run history new_registry)).0 in
    (1000 ≤ id) × (id ≤ 9999) × (lookup 11 (run history new_registry) ≢ some id)
unfolding run step store reserve remove
store_auto_fresh_example = store_auto_fresh history (5 ∷ []) 11 (omega arith) (omega arith)

-- `n` entries of a payload, 1 ms apart.
abbrev parked : ℕ → ℕ → ℕ → List (Entry whole)
parked zero t payload = []
parked (suc n) t payload =
    record { timestamp = t; rc4_payload = payload; rssi = negsuc 9; transponder_id = 0 }
    ∷ parked n (t + 1000) payload

abbrev still : Trainer whole
still = record { state = training; buffer = parked 130 1000 7 }

still-IsSafe : IsSafe whole still
still-IsSafe = record { bounded = omega arith; filled = inr (omega arith) }

evaluate-Answers_example : Answers whole still (evaluate whole 2000000 still)
evaluate-Answers_example = evaluate-Answers whole 2000000 still still-IsSafe

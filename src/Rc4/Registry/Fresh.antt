-- ===== src/Rc4/Registry/Fresh.antt =====
-- The ids that the registry hands out by itself, over any history of stores and removals.
use openstint.Base.{
  IsOrdered, List, Map, [], arith, assign, find, length, some, subst, suc, ℕ, ◌+◌, ◌<◌, ◌^◌, ◌∷◌,
  ◌≡◌, ◌≢◌, ◌≤◌, ◌⊎◌, ℕ_key,
}
use openstint.Rc4.Registry.{
  Registry, new_registry, lookup, assign_all, store, reserve, drop_id, remove,
}
use openstint.Rc4.Registry.Laws.{assign_all-IsOrdered, drop_id-IsOrdered}

-- A call that changes the registry.
pub data Op : Type 0 where
  stores : ℕ → List ℕ → Op
  removes : ℕ → Op

unfoldable pub step : Op → Registry → Registry
step (stores id ps) r = (store id ps r).1
step (removes id) r = remove id r

unfoldable pub run : List Op → Registry → Registry
run [] r = r
run (op ∷ ops) r = run ops (step op r)

-- Every id in the map is one that the counter has passed, or one above the counted range.
abbrev pub Counted : ℕ → Map ℕ ℕ → Type 0
Counted next [] = Unit {0}
Counted next ((p, t) ∷ m) = ((t < next) ⊎ (9999 < t)) × Counted next m

-- `n` bounds the calls made so far.
pub record IsCounted (n : ℕ) (r : Registry) : Type 0 where
  pub counted : Counted r.next_transponder r.registry
  pub ordered : IsOrdered r.registry
  pub low : 1000 ≤ r.next_transponder
  pub high : r.next_transponder ≤ 10000 + n

Counted-mono : (a b : ℕ) (m : Map ℕ ℕ) → a ≤ b → Counted a m → Counted b m
Counted-mono a b [] h c = tt
Counted-mono a b ((p, t) ∷ m) h c = (ground arith, Counted-mono a b m h c.1)

assign-Counted :
    (next p id : ℕ) (m : Map ℕ ℕ)
    → (id < next) ⊎ (9999 < id)
    → Counted next m
    → Counted next (assign p id m)
unfolding assign
assign-Counted next p id [] h c = (h, tt)
assign-Counted next p id ((j, w) ∷ m) h c = ground (arith, assign-Counted next p id m h c.1)

assign_all-Counted :
    (next id : ℕ) (ps : List ℕ) (m : Map ℕ ℕ)
    → (id < next) ⊎ (9999 < id)
    → Counted next m
    → Counted next (assign_all id ps m)
unfolding assign_all
assign_all-Counted next id [] m h c = c
assign_all-Counted next id (p ∷ ps) m h c =
    assign_all-Counted next id ps (assign p id m) h (assign-Counted next p id m h c)

drop_id-Counted : (next id : ℕ) (m : Map ℕ ℕ) → Counted next m → Counted next (drop_id id m)
unfolding drop_id
drop_id-Counted next id [] c = tt
drop_id-Counted next id ((p, t) ∷ m) c = ground (arith, drop_id-Counted next id m c.1)

reserve_bounds :
    (n id next : ℕ)
    → 1000 ≤ next
    → next ≤ 10000 + n
    → (next ≤ reserve id next)
      × (reserve id next ≤ 10000 + n)
      × ((id ≡ 0) ⊎ ((id < reserve id next) ⊎ (9999 < id)))
unfolding reserve
reserve_bounds n id next lo hi = ground arith

store-IsCounted :
    (n id : ℕ) (ps : List ℕ) (r : Registry)
    → 10001 + n < 2 ^ 32
    → IsCounted n r
    → IsCounted (suc n) (store id ps r).1
unfolding store
store-IsCounted n id ps r small v =
    let next : ℕ = reserve id r.next_transponder in
    ground (
      arith,
      reserve_bounds n id r.next_transponder v.low v.high,
      Counted-mono r.next_transponder next r.registry,
      Counted-mono r.next_transponder (next + 1) r.registry,
      assign_all-Counted next id ps r.registry,
      assign_all-Counted (next + 1) next ps r.registry,
      assign_all-IsOrdered id ps r.registry v.ordered,
      assign_all-IsOrdered next ps r.registry v.ordered,
    )

step-IsCounted :
    (n : ℕ) (op : Op) (r : Registry)
    → 10001 + n < 2 ^ 32
    → IsCounted n r
    → IsCounted (suc n) (step op r)
unfolding step remove
step-IsCounted n (stores id ps) r small v = store-IsCounted n id ps r small v
step-IsCounted n (removes id) r small v = record {
  counted = drop_id-Counted r.next_transponder id r.registry v.counted;
  ordered = drop_id-IsOrdered id r.registry v.ordered;
  low = v.low;
  high = omega arith;
}

run-IsCounted_from :
    (n : ℕ) (ops : List Op) (r : Registry)
    → 10001 + n + length ops < 2 ^ 32
    → IsCounted n r
    → IsCounted (n + length ops) (run ops r)
unfolding run
run-IsCounted_from n [] r small v = record {
  counted = v.counted;
  ordered = v.ordered;
  low = v.low;
  high = omega arith;
}
run-IsCounted_from n (op ∷ ops) r small v =
    let e : suc n + length ops ≡ n + length (op ∷ ops) = omega arith in
    subst (λ k. IsCounted k (run ops (step op r))) e
      (run-IsCounted_from (suc n) ops (step op r) (omega arith)
        (step-IsCounted n op r (omega arith) v))

-- After any history of fewer than four billion stores and removals on the empty registry, the
-- map's keys rise strictly, and every id in it lies below the counter or above 9999.
pub run-IsCounted :
    (ops : List Op)
    → 10001 + length ops < 2 ^ 32
    → IsCounted (0 + length ops) (run ops new_registry)
run-IsCounted ops small =
    run-IsCounted_from 0 ops new_registry (omega arith)
      (record { counted = tt; ordered = tt; low = omega arith; high = omega arith })

find-Counted : (next q : ℕ) (m : Map ℕ ℕ) → Counted next m → next ≤ 9999 → find q m ≢ some next
unfolding find
find-Counted next q [] c h = λ e. cc
find-Counted next q ((p, t) ∷ m) c h = ground (arith, find-Counted next q m c.1)

-- While the counter is at most 9999, a store with the id 0 picks an id between 1000 and 9999 under
-- which no payload was known, whatever history led to the registry.
pub store_auto_fresh :
    (ops : List Op) (ps : List ℕ) (q : ℕ)
    → 10001 + length ops < 2 ^ 32
    → (run ops new_registry).next_transponder ≤ 9999
    → let id = (store 0 ps (run ops new_registry)).0 in
      (1000 ≤ id) × (id ≤ 9999) × (lookup q (run ops new_registry) ≢ some id)
unfolding store reserve lookup
store_auto_fresh ops ps q small h =
    let r : Registry = run ops new_registry in
    let v : IsCounted (0 + length ops) r = run-IsCounted ops small in
    (v.low, h, find-Counted r.next_transponder q r.registry v.counted h)

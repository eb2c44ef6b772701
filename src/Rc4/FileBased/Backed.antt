-- ===== src/Rc4/FileBased/Backed.antt =====
-- That `RC4FileBasedRegistry` of src/rc4.cpp knows only ids that are loaded, through `store` and the
-- loading of a file.
use openstint.Base.{
  Bool-cases, IsOrdered, List, arith, contains, contains-insert, false, inl, inr, insert, refl,
  some, subst, sym, true, ℕ, ◌==◌, ◌||◌, ◌∙◌, ◌≡◌, ℕ_key,
}
use openstint.Rc4.Registry.{Registry, lookup, remove, reserve}
use openstint.Rc4.Registry
use openstint.Rc4.Registry.Laws.{lookup-store, assign_all-IsOrdered}
use openstint.Rc4.FileBased.{FileBasedRegistry, store, is_empty, load}

-- Every answer of a lookup is an id that is loaded.
pub record IsBacked (s : FileBasedRegistry) : Type 0 where
  pub ordered : IsOrdered s.base.registry
  pub backed : (q id : ℕ) → lookup q s.base ≡ some id → contains id s.loaded_ids ≡ true

store-IsOrdered :
    (id : ℕ) (ps : List ℕ) (r : Registry)
    → IsOrdered r.registry
    → IsOrdered (openstint.Rc4.Registry.store id ps r).1.registry
unfolding openstint.Rc4.Registry.store
store-IsOrdered id ps r a = elim (Bool-cases (id == 0)) [
  | inl auto ↦ rw auto (assign_all-IsOrdered _ ps r.registry a)
  | inr given ↦ rw given (assign_all-IsOrdered id ps r.registry a)
]

-- What a store adds to the answers is under the id that it gives.
stored-backed :
    (id : ℕ) (ps : List ℕ) (s : FileBasedRegistry) (q j : ℕ)
    → IsBacked s
    → lookup q (openstint.Rc4.Registry.store id ps s.base).1 ≡ some j
    → contains j (insert (openstint.Rc4.Registry.store id ps s.base).0 s.loaded_ids) ≡ true
stored-backed id ps s q j v e =
    let given = (openstint.Rc4.Registry.store id ps s.base).0 in
    let e' = sym (lookup-store q id ps s.base) ∙ e in
    elim (Bool-cases (contains q ps)) [
      | inl new ↦
          let same : given ≡ j = cc (rw new at e') in
          ground (arith, contains-insert j given s.loaded_ids, same)
      | inr old ↦ ground (arith, contains-insert j given s.loaded_ids, v.backed q j (rw old at e'))
    ]

pub store-IsBacked :
    (id : ℕ) (ps : List ℕ) (s : FileBasedRegistry) → IsBacked s → IsBacked (store id ps s).2
unfolding store
store-IsBacked id ps s v = record {
  ordered = store-IsOrdered id ps s.base v.ordered;
  backed = λ q j e. stored-backed id ps s q j v e;
}

pub store_given :
    (id : ℕ) (ps : List ℕ) (r : Registry)
    → (id == 0) ≡ false
    → (openstint.Rc4.Registry.store id ps r).0 ≡ id
unfolding openstint.Rc4.Registry.store
store_given id ps r given = rw given refl

pub load-IsBacked :
    (id : ℕ) (ps : List ℕ) (s : FileBasedRegistry)
    → (id == 0) ≡ false
    → IsBacked s
    → IsBacked (load id ps s)
unfolding load
load-IsBacked id ps s given v = elim (Bool-cases (contains id s.loaded_ids)) [
  | inl known ↦ rw known v
  | inr new ↦ elim (Bool-cases (is_empty ps)) [
    | inl nothing ↦
        rw (new, nothing)
          (record {
            ordered = v.ordered;
            backed = λ q j e. ground (arith, contains-insert j id s.loaded_ids, v.backed q j e);
          })
    | inr some_ps ↦
        rw (new, some_ps)
          (record {
            ordered = store-IsOrdered id ps s.base v.ordered;
            backed = λ q j e.
                subst (λ i. contains j (insert i s.loaded_ids) ≡ true)
                  (store_given id ps s.base given) (stored-backed id ps s q j v e);
          })
  ]
]

pub load-loaded :
    (id : ℕ) (ps : List ℕ) (s : FileBasedRegistry) (j : ℕ)
    → contains j (load id ps s).loaded_ids ≡ (id == j || contains j s.loaded_ids)
unfolding load
load-loaded id ps s j = elim (Bool-cases (contains id s.loaded_ids)) [
  | inl known ↦ rw known (ground (arith, known))
  | inr new ↦ rw new (contains-insert j id s.loaded_ids)
]

-- ===== src/Rc4/Registry/Laws.antt =====
-- What `lookup` finds after `store` and after `remove`.
use openstint.Base.{
  ==_iff, Above, Above-IsOrdered, Above-mono, IsOrdered, List, Map, Option, [], arith, assign,
  assign-IsOrdered, contains, find, find-Above, find-assign, if◌then◌else◌, none, refl, some, ℕ,
  ◌==◌, ◌∷◌, ◌≡◌, ℕ_key,
}
use openstint.Rc4.Registry.{Registry, lookup, assign_all, store, drop_id, remove, reserve}

find-assign_all :
    (q id : ℕ) (ps : List ℕ) (m : Map ℕ ℕ)
    → find q (assign_all id ps m) ≡ (if contains q ps then some id else find q m)
unfolding assign_all contains
find-assign_all q id [] m = refl
find-assign_all q id (p ∷ ps) m =
    ground (arith, find-assign_all q id ps (assign p id m), find-assign q p id m)

-- After a store, each stored payload is found under the id that the store returned, and every
-- other payload is found as before.
pub lookup-store :
    (q id : ℕ) (ps : List ℕ) (r : Registry)
    → lookup q (store id ps r).1 ≡ (if contains q ps then some (store id ps r).0 else lookup q r)
unfolding lookup store
lookup-store q id ps r = ground (
  arith,
  find-assign_all q id ps r.registry,
  find-assign_all q (reserve id r.next_transponder) ps r.registry,
)

drop_id-Above : (i id : ℕ) (m : Map ℕ ℕ) → Above i m → Above i (drop_id id m)
unfolding drop_id
drop_id-Above i id [] a = tt
drop_id-Above i id ((j, w) ∷ m) a =
    ground (arith, drop_id-Above j id m a.1, drop_id-Above i id m, Above-mono i j m)

-- What is left of a found id when the entries of `id` are gone.
abbrev pub unless : ℕ → Option ℕ → Option ℕ
unless id none = none
unless id (some t) = if t == id then none else some t

find-drop_id : (q id : ℕ) (m : Map ℕ ℕ) → IsOrdered m → find q (drop_id id m) ≡ unless id (find q m)
unfolding find drop_id
find-drop_id q id [] a = refl
find-drop_id q id ((j, w) ∷ m) a = ground (
  arith,
  ==_iff j q,
  find-drop_id q id m (Above-IsOrdered j m a),
  find-Above j m a,
  find-Above j (drop_id id m) (drop_id-Above j id m a),
)

-- After a removal no payload is found under the removed id, and every payload of another id is
-- found as before, provided that the map's keys rise strictly.
pub lookup-remove :
    (q id : ℕ) (r : Registry)
    → IsOrdered r.registry
    → lookup q (remove id r) ≡ unless id (lookup q r)
unfolding lookup remove
lookup-remove q id r a = find-drop_id q id r.registry a

pub drop_id-IsOrdered : (id : ℕ) (m : Map ℕ ℕ) → IsOrdered m → IsOrdered (drop_id id m)
unfolding drop_id
drop_id-IsOrdered id [] a = tt
drop_id-IsOrdered id ((j, w) ∷ m) a = ground (
  arith,
  drop_id-Above j id m a,
  Above-IsOrdered j (drop_id id m),
  drop_id-IsOrdered id m (Above-IsOrdered j m a),
)

pub assign_all-IsOrdered :
    (id : ℕ) (ps : List ℕ) (m : Map ℕ ℕ) → IsOrdered m → IsOrdered (assign_all id ps m)
unfolding assign_all
assign_all-IsOrdered id [] m a = a
assign_all-IsOrdered id (p ∷ ps) m a =
    assign_all-IsOrdered id ps (assign p id m) (assign-IsOrdered p id m a)

-- ===== src/Rc4/Registry.antt =====
-- `RC4Registry` of src/rc4.cpp: the map from learned payloads to transponder ids, and the next id
-- to hand out. Each method holds the mutex for its whole body, so it is one step.
pub mod Laws
pub mod Fresh
use openstint.Base.{
  List, Map, Option, [], assign, find, if◌then◌else◌, leb, ltb, ℕ, ◌%◌, ◌&&◌, ◌+◌, ◌==◌, ◌^◌, ◌∷◌,
  ℕ_key,
}

pub record Registry : Type 0 where
  pub registry : Map ℕ ℕ
  pub next_transponder : ℕ

abbrev pub new_registry : Registry
new_registry = record { registry = []; next_transponder = 1000 }

-- The out parameter and the Boolean result are one option.
unfoldable pub lookup : ℕ → Registry → Option ℕ
lookup payload r = find payload r.registry

-- `for (const auto &p : rc4_payloads) registry[p] = transponder_id;`
unfoldable pub assign_all : ℕ → List ℕ → Map ℕ ℕ → Map ℕ ℕ
assign_all id [] m = m
assign_all id (p ∷ ps) m = assign_all id ps (assign p id m)

-- The first `if` of `store`: an explicit id of four digits moves the counter past it.
unfoldable pub reserve : ℕ → ℕ → ℕ
reserve id next = if leb 1000 id && leb id 9999 && ltb next (id + 1) then id + 1 else next

-- The id under which the payloads are stored, beside the new registry. The counter is a
-- `uint32_t`.
unfoldable pub store : ℕ → List ℕ → Registry → ℕ × Registry
unfolding reserve
store id ps r =
    let next = reserve id r.next_transponder in
    if id == 0
    then (
      next,
      record { registry = assign_all next ps r.registry; next_transponder = (next + 1) % 2 ^ 32 },
    )
    else (id, record { registry = assign_all id ps r.registry; next_transponder = next })

-- The loop of `remove` over the map's entries.
unfoldable pub drop_id : ℕ → Map ℕ ℕ → Map ℕ ℕ
drop_id id [] = []
drop_id id ((p, t) ∷ m) = let rest = drop_id id m in if t == id then rest else (p, t) ∷ rest

unfoldable pub remove : ℕ → Registry → Registry
remove id r = record r { registry = drop_id id r.registry }

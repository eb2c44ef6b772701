-- ===== src/Base/Maps.antt =====
-- `std::map` and `std::set` as association lists in the order of their keys, which is the order in
-- which the program iterates over them.
use mathlib.Core.Path.{◌≡◌, refl}
use mathlib.Core.Logic.{◌↔◌}
use mathlib.Core.Bool.{Bool, true, false, ◌||◌}
use mathlib.Core.Option.{Option, none, some}
use mathlib.Core.List.{List, [], ◌∷◌, ◌++◌}
use native.Mathlib.Omega.{arith}
use Prim.Native.Nat.{ℕ}
use openstint.Base.Tests.{ltb, ◌==◌, ==_iff, tests, if◌then◌else◌}

-- A key type with its order and its equality.
pub record Key (K : Type 0) : Type 0 where
  pub klt : K → K → Bool
  pub keq : K → K → Bool
  pub keq_iff : (a b : K) → (keq a b ≡ true) ↔ (a ≡ b)
  pub klt_trans : (a b c : K) → klt a b ≡ true → klt b c ≡ true → klt a c ≡ true
  pub klt_irrefl : (a : K) → klt a a ≡ false
  pub klt_total : (a b : K) → keq a b ≡ false → klt b a ≡ false → klt a b ≡ true

pub ltb_trans : (a b c : ℕ) → ltb a b ≡ true → ltb b c ≡ true → ltb a c ≡ true
ltb_trans a b c p q = omega tests

pub ltb_irrefl : (a : ℕ) → ltb a a ≡ false
ltb_irrefl a = ground arith

pub ltb_total : (a b : ℕ) → (a == b) ≡ false → ltb b a ≡ false → ltb a b ≡ true
ltb_total a b p q = ground arith

instance abbrev pub ℕ_key : Key ℕ
ℕ_key = record {
  klt = ltb;
  keq = ◌==◌;
  keq_iff = ==_iff;
  klt_trans = ltb_trans;
  klt_irrefl = ltb_irrefl;
  klt_total = ltb_total;
}

abbrev pub Map : Type 0 → Type 0 → Type 0
Map K V = List (K × V)

module _ {K V : Type 0} ⦃o : Key K⦄ where
  unfoldable pub find : K → Map K V → Option V
  find k [] = none
  find k ((j, v) ∷ m) = if o.keq j k then some v else find k m

  -- `m[k] = v`
  unfoldable pub assign : K → V → Map K V → Map K V
  assign k v [] = (k, v) ∷ []
  assign k v ((j, w) ∷ m) =
      let rest = assign k v m in
      if o.keq j k then (k, v) ∷ m else if o.klt k j then (k, v) ∷ (j, w) ∷ m else (j, w) ∷ rest

  -- `m.erase(k)`
  unfoldable pub erase : K → Map K V → Map K V
  erase k [] = []
  erase k ((j, w) ∷ m) = let rest = erase k m in if o.keq j k then rest else (j, w) ∷ rest

  -- A write is read back under its key, and other keys keep their values.
  pub find-assign :
      (j k : K) (v : V) (m : Map K V)
      → find j (assign k v m) ≡ (if o.keq k j then some v else find j m)
  unfolding find assign
  find-assign j k v [] = refl
  find-assign j k v ((i, w) ∷ m) =
      ground (arith, o.keq_iff k j, o.keq_iff i k, o.keq_iff i j, find-assign j k v m)

  pub find-erase :
      (j k : K) (m : Map K V) → find j (erase k m) ≡ (if o.keq k j then none else find j m)
  unfolding find erase
  find-erase j k [] = ground arith
  find-erase j k ((i, w) ∷ m) =
      ground (arith, o.keq_iff k j, o.keq_iff i k, o.keq_iff i j, find-erase j k m)

module _ {K : Type 0} ⦃o : Key K⦄ where
  -- `std::set`: membership and insertion.
  unfoldable pub contains : K → List K → Bool
  contains k [] = false
  contains k (j ∷ s) = o.keq j k || contains k s

  unfoldable pub insert : K → List K → List K
  insert k [] = k ∷ []
  insert k (j ∷ s) =
      let rest = insert k s in
      if o.keq j k then j ∷ s else if o.klt k j then k ∷ j ∷ s else j ∷ rest

  pub contains-append :
      (k : K) (xs ys : List K) → contains k (xs ++ ys) ≡ (contains k xs || contains k ys)
  unfolding contains
  contains-append k [] ys = refl
  contains-append k (x ∷ xs) ys = ground (arith, contains-append k xs ys)

  pub contains-insert :
      (j k : K) (s : List K) → contains j (insert k s) ≡ (o.keq k j || contains j s)
  unfolding contains insert
  contains-insert j k [] = refl
  contains-insert j k (i ∷ s) =
      ground (arith, o.keq_iff k j, o.keq_iff i k, o.keq_iff i j, contains-insert j k s)

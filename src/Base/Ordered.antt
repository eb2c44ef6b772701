-- ===== src/Base/Ordered.antt =====
-- Maps whose keys rise strictly, as those of `std::map` do.
use mathlib.Core.Path.{◌≡◌, refl}
use mathlib.Core.Bool.{true}
use mathlib.Core.Option.{none}
use mathlib.Core.List.{[], ◌∷◌}
use native.Mathlib.Omega.{arith}
use openstint.Base.Maps.{Key, Map, find, assign, erase}

module _ {K V : Type 0} ⦃o : Key K⦄ where
  -- The keys rise strictly from `k` on.
  abbrev pub Above : K → Map K V → Type 0
  Above k [] = Unit {0}
  Above k ((j, w) ∷ m) = (o.klt k j ≡ true) × Above j m

  abbrev pub IsOrdered : Map K V → Type 0
  IsOrdered [] = Unit {0}
  IsOrdered ((j, w) ∷ m) = Above j m

  pub Above-mono : (i k : K) (m : Map K V) → o.klt i k ≡ true → Above k m → Above i m
  Above-mono i k [] h a = tt
  Above-mono i k ((j, w) ∷ m) h a = (o.klt_trans i k j h a.0, a.1)

  pub Above-IsOrdered : (k : K) (m : Map K V) → Above k m → IsOrdered m
  Above-IsOrdered k [] a = tt
  Above-IsOrdered k ((j, w) ∷ m) a = a.1

  -- A key below those of the map is not in it.
  pub find-Above : (k : K) (m : Map K V) → Above k m → find k m ≡ none
  unfolding find
  find-Above k [] a = refl
  find-Above k ((j, w) ∷ m) a =
      ground (arith, o.keq_iff j k, o.klt_irrefl k, find-Above k m, Above-mono k j m a.0)

  pub assign-Above :
      (i k : K) (v : V) (m : Map K V) → o.klt i k ≡ true → Above i m → Above i (assign k v m)
  unfolding assign
  assign-Above i k v [] h a = (h, tt)
  assign-Above i k v ((j, w) ∷ m) h a =
      ground (arith, o.keq_iff j k, o.klt_total j k, assign-Above j k v m)

  pub assign-IsOrdered : (k : K) (v : V) (m : Map K V) → IsOrdered m → IsOrdered (assign k v m)
  unfolding assign
  assign-IsOrdered k v [] a = tt
  assign-IsOrdered k v ((j, w) ∷ m) a =
      ground (arith, o.keq_iff j k, o.klt_total j k, assign-Above j k v m)

  pub erase-Above : (i k : K) (m : Map K V) → Above i m → Above i (erase k m)
  unfolding erase
  erase-Above i k [] a = tt
  erase-Above i k ((j, w) ∷ m) a =
      ground (arith, erase-Above j k m a.1, erase-Above i k m, Above-mono i j m a.0 a.1)

  pub erase-IsOrdered : (k : K) (m : Map K V) → IsOrdered m → IsOrdered (erase k m)
  unfolding erase
  erase-IsOrdered k [] a = tt
  erase-IsOrdered k ((j, w) ∷ m) a =
      ground (arith, erase-Above j k m a, Above-IsOrdered j (erase k m), Above-IsOrdered j m a)

-- ===== src/Rc4/Trainer/Payloads.antt =====
-- Which payloads a finished training stores.
use openstint.Base.{
  ==_iff, Above, Above-IsOrdered, Above-mono, IsOrdered, List, Map, Option, [], ap, arith, assign,
  assign-IsOrdered, contains, false, find, find-assign, if◌then◌else◌, ltb, none, refl, some, ℕ,
  ◌+◌, ◌==◌, ◌∙◌, ◌∷◌, ◌≡◌, ℕ_key,
}
use openstint.Float.{Float}
use openstint.Rc4.Trainer.{Entry, Trainer, tally, repeated, registry_payloads}

module _ (F : Float) where
  -- How often a payload stands in the buffer.
  abbrev pub occurrences : ℕ → List (Entry F) → ℕ
  occurrences p [] = 0
  occurrences p (e ∷ es) = (if e.rc4_payload == p then 1 else 0) + occurrences p es

  abbrev pub count_of : Option ℕ → ℕ
  count_of none = 0
  count_of (some n) = n

  find-tally :
      (p : ℕ) (es : List (Entry F)) (counts : Map ℕ ℕ)
      → count_of (find p (tally F es counts)) ≡ count_of (find p counts) + occurrences p es
  unfolding tally
  find-tally p [] counts = omega arith
  find-tally p (e ∷ es) counts =
      let seen : ℕ = elim (find e.rc4_payload counts) [ none ↦ 0 | some n ↦ n ] in
      ground (
        arith,
        find-tally p es (assign e.rc4_payload (seen + 1) counts),
        find-assign p e.rc4_payload (seen + 1) counts,
        ==_iff e.rc4_payload p,
      )

  tally-IsOrdered :
      (es : List (Entry F)) (counts : Map ℕ ℕ) → IsOrdered counts → IsOrdered (tally F es counts)
  unfolding tally
  tally-IsOrdered [] counts o = o
  tally-IsOrdered (e ∷ es) counts o =
      tally-IsOrdered es _ (assign-IsOrdered e.rc4_payload _ counts o)

  repeated-Above :
      (p : ℕ) (counts : Map ℕ ℕ) → Above p counts → contains p (repeated F counts) ≡ false
  unfolding repeated contains
  repeated-Above p [] a = refl
  repeated-Above p ((j, n) ∷ m) a = ground (arith, repeated-Above p m (Above-mono p j m a.0 a.1))

  contains-repeated :
      (p : ℕ) (counts : Map ℕ ℕ)
      → IsOrdered counts
      → contains p (repeated F counts) ≡ ltb 1 (count_of (find p counts))
  unfolding repeated contains find
  contains-repeated p [] a = refl
  contains-repeated p ((j, n) ∷ m) a =
      ground
        (arith, ==_iff j p, contains-repeated p m (Above-IsOrdered j m a), repeated-Above j m a)

  -- The payloads to store are exactly those that stand more than once in the buffer.
  pub contains-registry_payloads :
      (p : ℕ) (t : Trainer F) → contains p (registry_payloads F t) ≡ ltb 1 (occurrences p t.buffer)
  unfolding registry_payloads find
  contains-registry_payloads p t =
      contains-repeated p (tally F t.buffer []) (tally-IsOrdered t.buffer [] tt)
      ∙ ap (ltb 1) (omega (arith, find-tally p t.buffer []))

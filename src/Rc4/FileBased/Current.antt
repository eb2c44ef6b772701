-- ===== src/Rc4/FileBased/Current.antt =====
-- That `resync` of `RC4FileBasedRegistry` in src/rc4.cpp leaves the registry with the transponders whose
-- files are there.
use openstint.Base.{
  All, Bool, Bool-cases, IsOrdered, List, Option, [], ap, arith, contains, contains-insert, false,
  find, inl, inr, none, refl, some, sym, true, ℕ, ◌&&◌, ◌==◌, ◌||◌, ◌∙◌, ◌∷◌, ◌≡◌, ◌≢◌, ℕ_key,
}
use openstint.Rc4.Lines.{payloads_of}
use openstint.Rc4.Registry.{Registry, lookup, remove}
use openstint.Rc4.Registry.Laws.{lookup-remove, drop_id-IsOrdered, unless}
use openstint.Rc4.FileBased.{
  DirectoryEntry, FileBasedRegistry, new_file_based, store, file_id, scan_id, scan, sweep, resync,
}
use openstint.Rc4.FileBased.Backed.{IsBacked, store-IsBacked, load-IsBacked, load-loaded}

-- The sweep keeps the loaded ids that are current, and forgets what was stored under the others.
record IsSwept (ids current : List ℕ) (r : Registry) (out : List ℕ × Registry) : Type 0 where
  ordered : IsOrdered out.1.registry
  kept : (j : ℕ) → contains j out.0 ≡ (contains j ids && contains j current)
  known :
      (q j : ℕ)
      → lookup q out.1 ≡ some j
      → (lookup q r ≡ some j) × (contains j ids ≡ true → contains j current ≡ true)

remove-IsOrdered : (id : ℕ) (r : Registry) → IsOrdered r.registry → IsOrdered (remove id r).registry
unfolding remove
remove-IsOrdered id r a = drop_id-IsOrdered id r.registry a

contains_same : (id j : ℕ) (ids : List ℕ) → (id == j) ≡ true → contains j ids ≡ contains id ids
contains_same id j ids same = ap (λ i. contains i ids) (ground (arith, same))

unless-some :
    (id : ℕ) (o : Option ℕ) (j : ℕ) → unless id o ≡ some j → (o ≡ some j) × ((id == j) ≡ false)
unless-some id none j e = absurd (cc e)
unless-some id (some t) j e = elim (Bool-cases (t == id)) [
  | inl gone ↦ absurd (cc (rw gone at e))
  | inr here ↦ let same : t ≡ j = cc (rw here at e) in (ap some same, ground (arith, here, same))
]

sweep-IsSwept :
    (ids current : List ℕ) (r : Registry)
    → IsOrdered r.registry
    → IsSwept ids current r (sweep ids current r)
unfolding sweep contains
sweep-IsSwept [] current r a = record {
  ordered = a;
  kept = λ j. refl;
  known = λ q j e. (e, λ h. absurd (cc h));
}
sweep-IsSwept (id ∷ ids) current r a = elim (Bool-cases (contains id current)) [
  | inl stays ↦
      let rest = sweep-IsSwept ids current r a in
      rw stays (record {
        ordered = rest.ordered;
        kept = λ j. ground (arith, rest.kept j, contains_same id j current, stays);
        known = λ q j e. (
          (rest.known q j e).0,
          λ h. ground (arith, (rest.known q j e).1, contains_same id j current, stays, h),
        );
      })
  | inr goes ↦
      let rest = sweep-IsSwept ids current (remove id r) (remove-IsOrdered id r a) in
      rw goes (record {
        ordered = rest.ordered;
        kept = λ j. ground (arith, rest.kept j, contains_same id j current, goes);
        known = λ q j e.
            let (there, current_too) = rest.known q j e in
            let (before, other) =
              unless-some id (lookup q r) j (sym (lookup-remove q id r a) ∙ there) in
            (before, λ h. ground (arith, current_too, other, h));
      })
]

abbrev names : ℕ → Option ℕ → Bool
names j none = false
names j (some id) = id == j

-- A file of the directory has the id.
unfoldable pub has_file : ℕ → List DirectoryEntry → Bool
has_file j [] = false
has_file j (e ∷ es) = names j (file_id e) || has_file j es

-- No file is called 0: its payloads would be stored under an automatic id.
abbrev pub NoZero : List DirectoryEntry → Type 0
NoZero = All (λ (e : DirectoryEntry). file_id e ≢ some 0)

abbrev Scan : Type 0
Scan = List ℕ × FileBasedRegistry

record IsScanned (has : ℕ → Bool) (before after : Scan) : Type 0 where
  backed : IsBacked after.1
  current : (j : ℕ) → contains j after.0 ≡ (contains j before.0 || has j)
  loaded : (j : ℕ) → contains j after.1.loaded_ids ≡ (contains j before.1.loaded_ids || has j)

scan_id-IsScanned :
    (o : Option ℕ) (text : List ℕ) (before : Scan)
    → o ≢ some 0
    → IsBacked before.1
    → IsScanned (λ j. names j o) before (scan_id o text before)
unfolding scan_id
scan_id-IsScanned none text (ids, s) h v = record {
  backed = v;
  current = λ j. ground arith;
  loaded = λ j. ground arith;
}
scan_id-IsScanned (some id) text (ids, s) h v =
    let given : (id == 0) ≡ false = elim (Bool-cases (id == 0)) [
      | inl zero_id ↦ absurd (h (ap some (ground (arith, zero_id))))
      | inr other ↦ other
    ] in
    record {
      backed = load-IsBacked id (payloads_of text) s given v;
      current = λ j. ground (arith, contains-insert j id ids);
      loaded = λ j. ground (arith, load-loaded id (payloads_of text) s j);
    }

scan-IsScanned :
    (es : List DirectoryEntry) (before : Scan)
    → NoZero es
    → IsBacked before.1
    → IsScanned (λ j. has_file j es) before (scan es before)
unfolding scan has_file
scan-IsScanned [] before h v = record {
  backed = v;
  current = λ j. ground arith;
  loaded = λ j. ground arith;
}
scan-IsScanned (e ∷ es) before h v =
    let one = scan_id-IsScanned (file_id e) e.text before h.0 v in
    let rest = scan-IsScanned es (scan_id (file_id e) e.text before) h.1 one.backed in
    record {
      backed = rest.backed;
      current = λ j. ground (arith, rest.current j, one.current j);
      loaded = λ j. ground (arith, rest.loaded j, one.loaded j);
    }

resync-loaded :
    (es : List DirectoryEntry) (s : FileBasedRegistry) (j : ℕ)
    → NoZero es
    → IsBacked s
    → contains j (resync es s).loaded_ids ≡ has_file j es
unfolding resync contains
resync-loaded es s j h v =
    let scanned = scan-IsScanned es ([], s) h v in
    let (ids, after) = scan es ([], s) in
    let swept = sweep-IsSwept after.loaded_ids ids after.base scanned.backed.ordered in
    ground (arith, swept.kept j, scanned.current j, scanned.loaded j)

resync-known :
    (es : List DirectoryEntry) (s : FileBasedRegistry) (q j : ℕ)
    → NoZero es
    → IsBacked s
    → lookup q (resync es s).base ≡ some j
    → has_file j es ≡ true
unfolding resync contains
resync-known es s q j h v e =
    let scanned = scan-IsScanned es ([], s) h v in
    let (ids, after) = scan es ([], s) in
    let swept = sweep-IsSwept after.loaded_ids ids after.base scanned.backed.ordered in
    let (before, current) = swept.known q j e in
    ground (arith, scanned.current j, current (scanned.backed.backed q j before))

resync-IsBacked :
    (es : List DirectoryEntry) (s : FileBasedRegistry)
    → NoZero es
    → IsBacked s
    → IsBacked (resync es s)
resync-IsBacked es s h v = record {
  ordered = resync-IsOrdered;
  backed = λ q j e. resync-loaded es s j h v ∙ resync-known es s q j h v e;
}
  where
    resync-IsOrdered : IsOrdered (resync es s).base.registry
    resync-IsOrdered =
        let scanned = scan-IsScanned es ([], s) h v in
        unfold resync in (sweep-IsSwept _ _ _ scanned.backed.ordered).ordered

-- The calls of the registry that change it.
pub data Call : Type 0 where
  stores : ℕ → List ℕ → Call
  resyncs : List DirectoryEntry → Call

unfoldable pub call : Call → FileBasedRegistry → FileBasedRegistry
call (stores id ps) s = (store id ps s).2
call (resyncs es) s = resync es s

unfoldable pub run : List Call → FileBasedRegistry → FileBasedRegistry
run [] s = s
run (c ∷ cs) s = run cs (call c s)

abbrev pub NoZeroCall : Call → Type 0
NoZeroCall (stores id ps) = Unit
NoZeroCall (resyncs es) = NoZero es

run-IsBacked :
    (cs : List Call) (s : FileBasedRegistry) → All NoZeroCall cs → IsBacked s → IsBacked (run cs s)
unfolding run call
run-IsBacked [] s h v = v
run-IsBacked (stores id ps ∷ cs) s h v =
    run-IsBacked cs (store id ps s).2 h.1 (store-IsBacked id ps s v)
run-IsBacked (resyncs es ∷ cs) s h v =
    run-IsBacked cs (resync es s) h.1 (resync-IsBacked es s h.0 v)

new_file_based-IsBacked : IsBacked new_file_based
unfolding lookup find
new_file_based-IsBacked = record { ordered = tt; backed = λ q id e. absurd (cc e) }

-- After any stores and resyncs, and a resync with the files as they are, a lookup answers only with
-- an id that has a file, so that a transponder whose file was removed is unknown; and the loaded
-- ids are just those of the files. No directory that is listed may have a file whose id is 0.
pub resync-has_file :
    (cs : List Call) (es : List DirectoryEntry)
    → All NoZeroCall cs
    → NoZero es
    → ((q id : ℕ)
        → lookup q (resync es (run cs new_file_based)).base ≡ some id
        → has_file id es ≡ true)
      × ((id : ℕ) → contains id (resync es (run cs new_file_based)).loaded_ids ≡ has_file id es)
resync-has_file cs es h h' =
    let v = run-IsBacked cs new_file_based h new_file_based-IsBacked in
    (
      λ q id e. resync-known es (run cs new_file_based) q id h' v e,
      λ id. resync-loaded es (run cs new_file_based) id h' v,
    )

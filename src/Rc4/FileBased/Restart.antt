-- ===== src/Rc4/FileBased/Restart.antt =====
-- What the registry of src/rc4.cpp knows after a restart: the files of the directory are read into an
-- empty `RC4FileBasedRegistry`, as `init_commons` of src/commons.cpp does.
use openstint.Base.{
  All, Bool-cases, List, Option, [], ap, arith, contains, contains-insert, false, inl, inr, none,
  refl, some, true, ℕ, ◌++◌, ◌==◌, ◌∙◌, ◌∷◌, ◌≡◌, ◌≢◌, ℕ_key,
}
use openstint.Rc4.Lines.{payloads_of}
use openstint.Rc4.Registry.{Registry, lookup}
use openstint.Rc4.Registry.Laws.{lookup-store}
use openstint.Rc4.FileBased.{
  DirectoryEntry, FileBasedRegistry, new_file_based, file_id, load, scan_id, scan, sweep, resync,
}
use openstint.Rc4.FileBased.Backed.{store_given, load-loaded}

abbrev Scan : Type 0
Scan = List ℕ × FileBasedRegistry

-- The ids that are loaded are those that the scan has seen.
abbrev AllSeen : Scan → Type 0
AllSeen st = (j : ℕ) → contains j st.1.loaded_ids ≡ true → contains j st.0 ≡ true

scan_id-AllSeen :
    (o : Option ℕ) (text : List ℕ) (st : Scan) → AllSeen st → AllSeen (scan_id o text st)
unfolding scan_id
scan_id-AllSeen none text (ids, s) h = h
scan_id-AllSeen (some id) text (ids, s) h =
    λ j e. ground (arith, contains-insert j id ids, load-loaded id (payloads_of text) s j, h j, e)

scan-AllSeen : (es : List DirectoryEntry) (st : Scan) → AllSeen st → AllSeen (scan es st)
unfolding scan
scan-AllSeen [] st h = h
scan-AllSeen (e ∷ es) st h =
    scan-AllSeen es (scan_id (file_id e) e.text st) (scan_id-AllSeen (file_id e) e.text st h)

-- A sweep over ids that are all current forgets none.
sweep-all :
    (ids current : List ℕ) (r : Registry)
    → ((j : ℕ) → contains j ids ≡ true → contains j current ≡ true)
    → (sweep ids current r).1 ≡ r
unfolding sweep contains
sweep-all [] current r h = refl
sweep-all (id ∷ ids) current r h =
    let stays : contains id current ≡ true = h id (ground arith) in
    rw stays (sweep-all ids current r (λ j e. h j (ground (arith, e))))

resync-scan :
    (es : List DirectoryEntry)
    → (resync es new_file_based).base ≡ (scan es ([], new_file_based)).1.base
unfolding resync
resync-scan es =
    let st = scan es ([], new_file_based) in
    sweep-all st.1.loaded_ids st.0 st.1.base (scan-AllSeen es ([], new_file_based) (λ j e. e))

scan-append : (es fs : List DirectoryEntry) (st : Scan) → scan (es ++ fs) st ≡ scan fs (scan es st)
unfolding scan
scan-append [] fs st = refl
scan-append (e ∷ es) fs st = scan-append es fs (scan_id (file_id e) e.text st)

-- A file without the payload does not change what is known of it.
abbrev pub Without : ℕ → DirectoryEntry → Type 0
Without q e = contains q (payloads_of e.text) ≡ false

load-other :
    (q id : ℕ) (ps : List ℕ) (s : FileBasedRegistry)
    → contains q ps ≡ false
    → lookup q (load id ps s).base ≡ lookup q s.base
unfolding load
load-other q id ps s h = ground (arith, h, lookup-store q id ps s.base)

scan_id-other :
    (q : ℕ) (o : Option ℕ) (text : List ℕ) (st : Scan)
    → contains q (payloads_of text) ≡ false
    → lookup q (scan_id o text st).1.base ≡ lookup q st.1.base
unfolding scan_id
scan_id-other q none text (ids, s) h = refl
scan_id-other q (some id) text (ids, s) h = load-other q id (payloads_of text) s h

scan-other :
    (q : ℕ) (es : List DirectoryEntry) (st : Scan)
    → All (Without q) es
    → lookup q (scan es st).1.base ≡ lookup q st.1.base
unfolding scan
scan-other q [] st h = refl
scan-other q (e ∷ es) st h =
    scan-other q es (scan_id (file_id e) e.text st) h.1 ∙ scan_id-other q (file_id e) e.text st h.0

-- An id that no file has is not loaded.
abbrev pub NotFor : ℕ → DirectoryEntry → Type 0
NotFor id e = file_id e ≢ some id

scan_id-unloaded :
    (id : ℕ) (o : Option ℕ) (text : List ℕ) (st : Scan)
    → o ≢ some id
    → contains id st.1.loaded_ids ≡ false
    → contains id (scan_id o text st).1.loaded_ids ≡ false
unfolding scan_id
scan_id-unloaded id none text (ids, s) other new = new
scan_id-unloaded id (some j) text (ids, s) other new = elim (Bool-cases (j == id)) [
  | inl same ↦ absurd (other (ap some (ground (arith, same))))
  | inr differs ↦ ground (arith, load-loaded j (payloads_of text) s id, differs, new)
]

scan-unloaded :
    (id : ℕ) (es : List DirectoryEntry) (st : Scan)
    → All (NotFor id) es
    → contains id st.1.loaded_ids ≡ false
    → contains id (scan es st).1.loaded_ids ≡ false
unfolding scan
scan-unloaded id [] st h new = new
scan-unloaded id (e ∷ es) st h new =
    scan-unloaded id es (scan_id (file_id e) e.text st) h.1
      (scan_id-unloaded id (file_id e) e.text st h.0 new)

load-lookup :
    (q id : ℕ) (ps : List ℕ) (s : FileBasedRegistry)
    → (id == 0) ≡ false
    → contains id s.loaded_ids ≡ false
    → contains q ps ≡ true
    → lookup q (load id ps s).base ≡ some id
unfolding load contains
load-lookup q id [] s given new there = absurd (cc there)
load-lookup q id (p ∷ ps) s given new there =
    rw new
      (lookup-store q id (p ∷ ps) s.base ∙ rw (there, store_given id (p ∷ ps) s.base given) refl)

scan_id-lookup :
    (q id : ℕ) (text : List ℕ) (st : Scan)
    → (id == 0) ≡ false
    → contains id st.1.loaded_ids ≡ false
    → contains q (payloads_of text) ≡ true
    → lookup q (scan_id (some id) text st).1.base ≡ some id
unfolding scan_id
scan_id-lookup q id text (ids, s) given new there =
    load-lookup q id (payloads_of text) s given new there

-- After a restart a payload of a file is known under the file's id, if no other file before it has
-- the same id, and no file after it the same payload.
pub resync-lookup :
    (q id : ℕ) (before after : List DirectoryEntry) (e : DirectoryEntry)
    → file_id e ≡ some id
    → (id == 0) ≡ false
    → contains q (payloads_of e.text) ≡ true
    → All (NotFor id) before
    → All (Without q) after
    → lookup q (resync (before ++ e ∷ after) new_file_based).base ≡ some id
unfolding scan contains
resync-lookup q id before after e name given there first last =
    let st = scan before ([], new_file_based) in
    let unloaded = scan-unloaded id before ([], new_file_based) first refl in
    ap (lookup q) (resync-scan (before ++ e ∷ after))
    ∙ ap (λ st. lookup q st.1.base) (scan-append before (e ∷ after) ([], new_file_based))
    ∙ scan-other q after (scan_id (file_id e) e.text st) last
    ∙ ap (λ o. lookup q (scan_id o e.text st).1.base) name
    ∙ scan_id-lookup q id e.text st given unloaded there

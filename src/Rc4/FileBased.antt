-- ===== src/Rc4/FileBased.antt =====
-- `RC4FileBasedRegistry` of src/rc4.cpp: the registry that is kept in step with the files of a
-- directory. The listing of the directory, with what each file holds, is an argument.
pub mod Backed
pub mod Current
pub mod Names
pub mod Restart
use openstint.Base.{
  Bool, List, Option, [], contains, false, if◌then◌else◌, insert, leb, ltb, negb, none, some, suc,
  true, zero, ℕ, ◌%◌, ◌&&◌, ◌*◌, ◌++◌, ◌+◌, ◌-◌, ◌/◌, ◌==◌, ◌^◌, ◌||◌, ◌∷◌, ℕ_key,
}
use openstint.Rc4.Lines.{payloads_of, print_lines}
use openstint.Rc4.Registry.{Registry, new_registry, remove}
use openstint.Rc4.Registry

-- What a directory's iteration tells of an entry. A file that cannot be opened has no text.
pub record DirectoryEntry : Type 0 where
  pub is_regular_file : Bool
  pub stem : List ℕ
  pub extension : List ℕ
  pub text : List ℕ

pub record FileBasedRegistry : Type 0 where
  pub base : Registry
  pub loaded_ids : List ℕ

abbrev pub new_file_based : FileBasedRegistry
new_file_based = record { base = new_registry; loaded_ids = [] }

-- The id, the lines that are appended to its file, and the registry after it.
unfoldable pub store : ℕ → List ℕ → FileBasedRegistry → ℕ × List ℕ × FileBasedRegistry
store transponder_id payloads s =
    let (id, base) = openstint.Rc4.Registry.store transponder_id payloads s.base in
    (id, print_lines payloads, record { base = base; loaded_ids = insert id s.loaded_ids })

unfoldable pub same_text : List ℕ → List ℕ → Bool
same_text [] [] = true
same_text (c ∷ cs) (d ∷ ds) = (c == d) && same_text cs ds
same_text cs ds = false

-- `::isdigit` of all, and `std::stoul` of such a text.
unfoldable pub all_digits : List ℕ → Bool
all_digits [] = true
all_digits (c ∷ cs) = leb 48 c && leb c 57 && all_digits cs

unfoldable pub read_digits : ℕ → List ℕ → ℕ
read_digits v [] = v
read_digits v (c ∷ cs) = read_digits (v * 10 + (c - 48)) cs

abbrev pub is_empty : List ℕ → Bool
is_empty [] = true
is_empty (c ∷ cs) = false

-- The id of an entry, a `uint32_t`; `none` is one of the `continue`s. ".rc4" is 46, 114, 99, 52.
unfoldable pub file_id : DirectoryEntry → Option ℕ
unfolding same_text all_digits read_digits
file_id e =
    let id = read_digits 0 e.stem in
    if negb e.is_regular_file
    then none
    else if negb (same_text e.extension (46 ∷ 114 ∷ 99 ∷ 52 ∷ []))
    then none
    else if is_empty e.stem || negb (all_digits e.stem)
    then none
    else if leb (2 ^ 64) id
    then none
    else some (id % 2 ^ 32)

-- `std::to_string` of an id: the decimal digits, of which a `uint32_t` has at most ten.
unfoldable pub decimal_digits : ℕ → ℕ → List ℕ
decimal_digits zero v = []
decimal_digits (suc n) v =
    let rest = decimal_digits n (v / 10) in
    if ltb v 10 then (48 + v) ∷ [] else rest ++ (48 + v % 10) ∷ []

unfoldable pub file_stem : ℕ → List ℕ
file_stem id = decimal_digits 10 id

-- The entry of the file to which `store` appends, when it has this text.
unfoldable pub file_of : ℕ → List ℕ → DirectoryEntry
file_of id text = record {
  is_regular_file = true;
  stem = file_stem id;
  extension = 46 ∷ 114 ∷ 99 ∷ 52 ∷ [];
  text = text;
}

-- The body of the loop for an id, which an id that is loaded skips.
unfoldable pub load : ℕ → List ℕ → FileBasedRegistry → FileBasedRegistry
load id payloads s =
    let stored = (openstint.Rc4.Registry.store id payloads s.base).1 in
    let base = if is_empty payloads then s.base else stored in
    if contains id s.loaded_ids
    then s
    else record { base = base; loaded_ids = insert id s.loaded_ids }

unfoldable pub scan_id : Option ℕ → List ℕ → List ℕ × FileBasedRegistry → List ℕ × FileBasedRegistry
scan_id none text (current_ids, s) = (current_ids, s)
scan_id (some id) text (current_ids, s) = (insert id current_ids, load id (payloads_of text) s)

-- The loop over the directory, with `current_ids`.
unfoldable pub scan : List DirectoryEntry → List ℕ × FileBasedRegistry → List ℕ × FileBasedRegistry
scan [] state = state
scan (e ∷ es) state = scan es (scan_id (file_id e) e.text state)

-- The loop over `loaded_ids`: the ids that stay, and the registry.
unfoldable pub sweep : List ℕ → List ℕ → Registry → List ℕ × Registry
sweep [] current_ids r = ([], r)
sweep (id ∷ ids) current_ids r =
    let stays = contains id current_ids in
    let (kept, r') = sweep ids current_ids (if stays then r else remove id r) in
    (if stays then id ∷ kept else kept, r')

unfoldable pub resync : List DirectoryEntry → FileBasedRegistry → FileBasedRegistry
resync entries s =
    let (current_ids, scanned) = scan entries ([], s) in
    let (kept, base) = sweep scanned.loaded_ids current_ids scanned.base in
    record { base = base; loaded_ids = kept }

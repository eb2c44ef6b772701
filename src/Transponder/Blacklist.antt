-- ===== src/Transponder/Blacklist.antt =====
-- `AmbRcBlacklist` of src/transponder.cpp.
pub mod History
use openstint.Base.{
  Bool, List, Map, Option, [], assign, bit_and, contains, false, find, if◌then◌else◌, insert, leb,
  negb, none, some, ℕ, ◌%◌, ◌+◌, ◌/◌, ◌==◌, ◌^◌, ℕ_key,
}

pub record AmbRcBlacklist : Type 0 where
  pub msb8_timestamps : Map ℕ ℕ
  pub banned_transponders : List ℕ

abbrev pub new_blacklist : AmbRcBlacklist
new_blacklist = record { msb8_timestamps = []; banned_transponders = [] }

-- `(transponder_id >> 16) & 0xff`
abbrev pub msb8_of : ℕ → ℕ
msb8_of transponder_id = bit_and (transponder_id / 2 ^ 16) 0xff

-- A validation message came for these bits, and at most 250 ms ago (`uint64_t` sum).
unfoldable pub is_recent : ℕ → Option ℕ → Bool
is_recent timestamp none = false
is_recent timestamp (some seen) = leb timestamp ((seen + 250000) % 2 ^ 64)

unfoldable pub process : ℕ → ℕ → ℕ → AmbRcBlacklist → AmbRcBlacklist
unfolding is_recent
process timestamp status_code transponder_id b =
    let msb8 = msb8_of transponder_id in
    if negb (bit_and status_code 0xf8 == 0xf8)
    then b
    else if bit_and status_code 0x07 == 0
    then b
    else if negb (status_code == 0xff)
    then record b { msb8_timestamps = assign msb8 timestamp b.msb8_timestamps }
    else if is_recent timestamp (find msb8 b.msb8_timestamps)
    then record b { banned_transponders = insert transponder_id b.banned_transponders }
    else b

unfoldable pub check_banned : ℕ → AmbRcBlacklist → Bool
check_banned transponder_id b = contains transponder_id b.banned_transponders

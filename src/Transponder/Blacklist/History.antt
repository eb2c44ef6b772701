-- ===== src/Transponder/Blacklist/History.antt =====
-- The block-list against the history of the frames that it was told of.
use openstint.Base.{
  Bool, List, Option, [], arith, bit_and, contains, contains-insert, false, find, find-assign,
  if◌then◌else◌, negb, none, refl, some, ℕ, ◌&&◌, ◌==◌, ◌||◌, ◌∷◌, ◌≡◌, ℕ_key,
}
use openstint.Transponder.Blacklist.{
  AmbRcBlacklist, new_blacklist, msb8_of, is_recent, process, check_banned,
}

pub record Message : Type 0 where
  pub timestamp : ℕ
  pub status_code : ℕ
  pub transponder_id : ℕ

-- The state after the messages of a history, the latest first.
pub state_after : List Message → AmbRcBlacklist
state_after [] = new_blacklist
state_after (m ∷ past) = process m.timestamp m.status_code m.transponder_id (state_after past)

-- A status or validation message for sure: the upper five status bits, a counter, not all ones.
abbrev pub is_validation : Message → Bool
is_validation m =
    bit_and m.status_code 0xf8 == 0xf8
    && negb (bit_and m.status_code 0x07 == 0)
    && negb (m.status_code == 0xff)

-- The time of the latest validation message whose id begins with these eight bits.
abbrev pub latest : ℕ → List Message → Option ℕ
latest msb8 [] = none
latest msb8 (m ∷ past) =
    let before = latest msb8 past in
    if is_validation m && msb8_of m.transponder_id == msb8 then some m.timestamp else before

-- The history holds a message of this id with all status bits set, which followed a validation
-- message of the same leading bits within 250 ms.
abbrev pub is_exposed : ℕ → List Message → Bool
is_exposed id [] = false
is_exposed id (m ∷ past) =
    (m.transponder_id == id
      && m.status_code == 0xff
      && is_recent m.timestamp (latest (msb8_of id) past))
    || is_exposed id past

find-latest :
    (msb8 : ℕ) (past : List Message)
    → find msb8 (state_after past).msb8_timestamps ≡ latest msb8 past
unfolding state_after process find
find-latest msb8 [] = refl
find-latest msb8 (m ∷ past) = ground (
  arith,
  find-latest msb8 past,
  find-assign msb8 (msb8_of m.transponder_id) m.timestamp (state_after past).msb8_timestamps,
)

-- A transponder is banned exactly if some message of its own with the status 0xff came within
-- 250 ms of the latest validation message of the same leading eight bits before it; a ban is never
-- lifted.
pub check_banned-state_after :
    (id : ℕ) (past : List Message) → check_banned id (state_after past) ≡ is_exposed id past
unfolding state_after check_banned process contains
check_banned-state_after id [] = refl
check_banned-state_after id (m ∷ past) = ground (
  arith,
  check_banned-state_after id past,
  find-latest (msb8_of m.transponder_id) past,
  contains-insert id m.transponder_id (state_after past).banned_transponders,
)

-- ===== src/Passing/System.antt =====
-- `TransponderSystem` and `TransponderKey`, with the order that `std::map` gives to the keys.
use openstint.Base.{Bool, Key, arith, false, ltb, true, ℕ, ◌&&◌, ◌==◌, ◌||◌, ◌↔◌, ◌≡◌}
use openstint.Transponder.{TransponderProtocol, open_stint, rc3, rc4}

pub data TransponderSystem : Type 0 where
  opn amb : TransponderSystem

unfoldable pub transponder_system : TransponderProtocol → TransponderSystem
transponder_system open_stint = opn
transponder_system rc3 = amb
transponder_system rc4 = amb

abbrev pub same_system : TransponderSystem → TransponderSystem → Bool
same_system opn opn = true
same_system opn amb = false
same_system amb opn = false
same_system amb amb = true

abbrev pub before_system : TransponderSystem → TransponderSystem → Bool
before_system opn amb = true
before_system opn opn = false
before_system amb s = false

pub record TransponderKey : Type 0 where
  pub system : TransponderSystem
  pub id : ℕ

abbrev pub same_key : TransponderKey → TransponderKey → Bool
same_key a b = same_system a.system b.system && a.id == b.id

-- Pairs compare by their first part, then by their second.
abbrev pub before_key : TransponderKey → TransponderKey → Bool
before_key a b = before_system a.system b.system || (same_system a.system b.system && ltb a.id b.id)

same_system_iff : (a b : TransponderSystem) → (same_system a b ≡ true) ↔ (a ≡ b)
same_system_iff a b = ground arith

pub same_key_iff : (a b : TransponderKey) → (same_key a b ≡ true) ↔ (a ≡ b)
same_key_iff a b = ground (arith, same_system_iff a.system b.system)

pub before_key_trans :
    (a b c : TransponderKey) → before_key a b ≡ true → before_key b c ≡ true → before_key a c ≡ true
before_key_trans a b c p q = ground arith

pub before_key_irrefl : (a : TransponderKey) → before_key a a ≡ false
before_key_irrefl a = ground arith

pub before_key_total :
    (a b : TransponderKey) → same_key a b ≡ false → before_key b a ≡ false → before_key a b ≡ true
before_key_total a b p q = ground arith

instance abbrev pub transponder_key : Key TransponderKey
transponder_key = record {
  klt = before_key;
  keq = same_key;
  keq_iff = same_key_iff;
  klt_trans = before_key_trans;
  klt_irrefl = before_key_irrefl;
  klt_total = before_key_total;
}

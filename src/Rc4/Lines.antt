-- ===== src/Rc4/Lines.antt =====
-- The text of the files of `RC4FileBasedRegistry` in src/rc4.cpp: a payload to a line, as it is
-- written, and the lines that are read, also those of the older format. A text is the list of its
-- character codes.
pub mod Roundtrip
use openstint.Base.{
  Bool, List, Option, [], bit_and, false, get_or, if◌then◌else◌, leb, length, ltb, negb, none, some,
  suc, true, zero, ℕ, ◌%◌, ◌&&◌, ◌*◌, ◌++◌, ◌+◌, ◌-◌, ◌/◌, ◌==◌, ◌>>=◌, ◌^◌, ◌||◌, ◌∷◌,
}
use openstint.Rc4.Message.{Rc4Message, rc4_message}

-- A character as a hexadecimal digit.
unfoldable pub hex_digit : ℕ → Option ℕ
hex_digit c =
    if leb 48 c && leb c 57
    then some (c - 48)
    else if leb 97 c && leb c 102
    then some (c - 87)
    else if leb 65 c && leb c 70
    then some (c - 55)
    else none

unfoldable pub starts_hex : List ℕ → Bool
unfolding hex_digit
starts_hex [] = false
starts_hex (c ∷ cs) = elim (hex_digit c) [ none ↦ false | some d ↦ true ]

-- The digits as far as they go.
unfoldable pub read_hex : ℕ → List ℕ → ℕ
read_hex v [] = v
read_hex v (c ∷ cs) = elim (hex_digit c) [ none ↦ v | some d ↦ read_hex (v * 16 + d) cs ]

-- The white space, the sign and the prefix that `std::stoull` lets pass before the digits.
unfoldable pub skip_space : List ℕ → List ℕ
skip_space [] = []
skip_space (c ∷ cs) =
    let rest = skip_space cs in if (c == 32) || (leb 9 c && leb c 13) then rest else c ∷ cs

unfoldable pub read_sign : List ℕ → Bool × List ℕ
read_sign [] = (false, [])
read_sign (c ∷ cs) =
    if c == 45 then (true, cs) else if c == 43 then (false, cs) else (false, c ∷ cs)

unfoldable pub skip_prefix : List ℕ → List ℕ
skip_prefix (c ∷ x ∷ cs) =
    if (c == 48) && ((x == 120) || (x == 88)) && starts_hex cs then cs else c ∷ x ∷ cs
skip_prefix cs = cs

-- `std::stoull(text, nullptr, 16)`, and `std::stoul`, whose type is as wide; `none` is an exception.
unfoldable pub stoull : List ℕ → Option ℕ
stoull text =
    let (minus, rest) = read_sign (skip_space text) in
    let digits = skip_prefix rest in
    let v = read_hex 0 digits in
    if negb (starts_hex digits) || leb (2 ^ 64) v
    then none
    else some (if minus then (2 ^ 64 - v) % 2 ^ 64 else v)

-- `std::getline` until it fails: what stands behind the last newline is a line if there is any.
unfoldable pub extend : ℕ → List (List ℕ) → List (List ℕ)
extend c [] = (c ∷ []) ∷ []
extend c (l ∷ ls) = (c ∷ l) ∷ ls

unfoldable pub lines : List ℕ → List (List ℕ)
unfolding extend
lines [] = []
lines (c ∷ cs) = let rest = lines cs in if c == 10 then [] ∷ rest else extend c rest

-- `line.pop_back()` on a carriage return.
unfoldable pub strip_cr : List ℕ → List ℕ
strip_cr [] = []
strip_cr (c ∷ []) = if c == 13 then [] else c ∷ []
strip_cr (c ∷ d ∷ cs) = c ∷ strip_cr (d ∷ cs)

-- The bytes of the older format, two characters to each.
unfoldable pub read_bytes : List ℕ → Option (List ℕ)
read_bytes (a ∷ b ∷ text) = do
  v ← stoull (a ∷ b ∷ [])
  bytes ← read_bytes text
  some (v % 256 ∷ bytes)
read_bytes text = some []

-- The soft bits from round `i` on, `n` rounds: the bits from the fifth on, the highest first.
unfoldable pub softbits_of : ℕ → ℕ → List ℕ → List ℕ
softbits_of zero i bytes = []
softbits_of (suc n) i bytes =
    let bit_pos = 5 + i in
    let bit = bit_and (get_or bytes (bit_pos / 8) 0 / 2 ^ (7 - bit_pos % 8)) 1 in
    (if bit == 0 then 0 else 255) ∷ softbits_of n (i + 1) bytes

abbrev pub valid_payload : Rc4Message → Option ℕ
valid_payload msg = if msg.is_valid then some msg.payload else none

unfoldable pub parse_old : List ℕ → Option ℕ
parse_old line = do
  bytes ← read_bytes line
  msg ← rc4_message (softbits_of 100 0 bytes)
  valid_payload msg

-- What a line adds to the payloads.
unfoldable pub parse_line : List ℕ → Option ℕ
parse_line text =
    let line = strip_cr text in
    let old = parse_old line in
    if length line == 16 then stoull line else if length line == 28 then old else none

abbrev pub add_payload : Option ℕ → List ℕ → List ℕ
add_payload none payloads = payloads
add_payload (some p) payloads = p ∷ payloads

unfoldable pub parse_all : List (List ℕ) → List ℕ
parse_all [] = []
parse_all (l ∷ ls) = add_payload (parse_line l) (parse_all ls)

-- The loop over the lines of a file.
unfoldable pub payloads_of : List ℕ → List ℕ
unfolding lines
payloads_of text = parse_all (lines text)

-- `%016llx`: the hexadecimal digits of a 64-bit word, `n` of them.
abbrev pub hex_char : ℕ → ℕ
hex_char d = if ltb d 10 then 48 + d else 87 + d

unfoldable pub print_digits : ℕ → ℕ → List ℕ
print_digits zero p = []
print_digits (suc n) p = hex_char (p / 16 ^ n % 16) ∷ print_digits n p

-- The lines that `store` appends.
unfoldable pub print_lines : List ℕ → List ℕ
print_lines [] = []
print_lines (p ∷ ps) = print_digits 16 p ++ 10 ∷ print_lines ps

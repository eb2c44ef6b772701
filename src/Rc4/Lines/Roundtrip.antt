-- ===== src/Rc4/Lines/Roundtrip.antt =====
-- What `RC4FileBasedRegistry::store` of src/rc4.cpp writes, and `resync` reads.
use native.Mathlib.Nat.{pow-suc, div-add-mod, div-div-eq-div-mul}
use openstint.Base.{
  All, Bool, Bool-cases, List, Option, [], ap, arith, false, if◌then◌else◌, inl, inr, leb, length,
  none, refl, some, suc, sym, true, zero, ℕ, ◌%◌, ◌&&◌, ◌*◌, ◌++◌, ◌+◌, ◌/◌, ◌<◌, ◌==◌, ◌^◌, ◌||◌,
  ◌∙◌, ◌∷◌, ◌≡◌, ◌≢◌, ◌≤◌,
}
use openstint.Rc4.Lines.{
  hex_digit, starts_hex, read_hex, skip_space, read_sign, skip_prefix, stoull, extend, lines,
  strip_cr, parse_line, add_payload, parse_all, payloads_of, hex_char, print_digits, print_lines,
}

-- The characters of a printed number.
pub record IsPrinted (c : ℕ) : Type 0 where
  pub low : 48 ≤ c
  pub high : c ≤ 102
  pub no_x : c ≢ 88

hex_char-IsPrinted : (d : ℕ) → d < 16 → IsPrinted (hex_char d)
hex_char-IsPrinted d h = record {
  low = ground arith;
  high = ground arith;
  no_x = λ e. ground (arith, e);
}

hex_digit-hex_char : (d : ℕ) → d < 16 → hex_digit (hex_char d) ≡ some d
unfolding hex_digit
hex_digit-hex_char d h = ground arith

print_digits-IsPrinted : (n p : ℕ) → All IsPrinted (print_digits n p)
unfolding print_digits
print_digits-IsPrinted zero p = tt
print_digits-IsPrinted (suc n) p =
    (hex_char-IsPrinted (p / 16 ^ n % 16) (omega arith), print_digits-IsPrinted n p)

length-print_digits : (n p : ℕ) → length (print_digits n p) ≡ n
unfolding print_digits
length-print_digits zero p = refl
length-print_digits (suc n) p = ap suc (length-print_digits n p)

-- The remainder by one digit more.
mod-digit : (m p : ℕ) → p % (m * 16) ≡ p / m % 16 * m + p % m
mod-digit m p =
    let q = p / m in
    let whole : q / 16 ≡ p / (m * 16) = div-div-eq-div-mul p m 16 in
    let split : q ≡ 16 * (q / 16) + q % 16 = sym (div-add-mod q 16) in
    let digits : m * q ≡ m * 16 * (q / 16) + q % 16 * m = ap (λ x. m * x) split ∙ grind arith in
    let top : m * 16 * (p / (m * 16)) ≡ m * 16 * (q / 16) = ap (λ x. m * 16 * x) (sym whole) in
    omega (arith, top, digits, div-add-mod p (m * 16), div-add-mod p m)

read_hex-print_digits : (n v p : ℕ) → read_hex v (print_digits n p) ≡ v * 16 ^ n + p % 16 ^ n
unfolding read_hex print_digits
read_hex-print_digits zero v p = omega arith
read_hex-print_digits (suc n) v p =
    let digit = p / 16 ^ n % 16 in
    ap (λ o. elim o as (λ x. ℕ) [ none ↦ v | some d ↦ read_hex (v * 16 + d) (print_digits n p) ])
      (hex_digit-hex_char digit (omega arith))
    ∙ read_hex-print_digits n (v * 16 + digit) p
    ∙ rw (pow-suc 16 n, mod-digit (16 ^ n) p) (grind arith)

lines_line : (l rest : List ℕ) → All IsPrinted l → lines (l ++ 10 ∷ rest) ≡ l ∷ lines rest
unfolding lines extend
lines_line [] rest v = refl
lines_line (c ∷ l) rest v =
    let other : (c == 10) ≡ false = ground (arith, v.0.low) in
    rw (other, lines_line l rest v.1) refl

strip_cr_printed : (l : List ℕ) → All IsPrinted l → strip_cr l ≡ l
unfolding strip_cr
strip_cr_printed [] v = refl
strip_cr_printed (c ∷ []) v =
    let other : (c == 13) ≡ false = ground (arith, v.0.low) in rw other refl
strip_cr_printed (c ∷ d ∷ l) v = ap (◌∷◌ c) (strip_cr_printed (d ∷ l) v.1)

skip_space_printed : (l : List ℕ) → All IsPrinted l → skip_space l ≡ l
unfolding skip_space
skip_space_printed [] v = refl
skip_space_printed (c ∷ l) v =
    let other : ((c == 32) || (leb 9 c && leb c 13)) ≡ false = ground (arith, v.0.low) in
    rw other refl

read_sign_printed : (l : List ℕ) → All IsPrinted l → read_sign l ≡ (false, l)
unfolding read_sign
read_sign_printed [] v = refl
read_sign_printed (c ∷ l) v =
    let minus : (c == 45) ≡ false = ground (arith, v.0.low) in
    let plus : (c == 43) ≡ false = ground (arith, v.0.low) in rw (minus, plus) refl

skip_prefix_printed : (l : List ℕ) → All IsPrinted l → skip_prefix l ≡ l
unfolding skip_prefix
skip_prefix_printed [] v = refl
skip_prefix_printed (c ∷ []) v = refl
skip_prefix_printed (c ∷ x ∷ l) v =
    let no_x : ((x == 120) || (x == 88)) ≡ false = ground (arith, v.1.0.high, v.1.0.no_x) in
    let other : ((c == 48) && ((x == 120) || (x == 88)) && starts_hex l) ≡ false =
      rw no_x (ground arith) in
    rw other refl

starts_hex_printed : (n p : ℕ) → starts_hex (print_digits (suc n) p) ≡ true
unfolding starts_hex print_digits
starts_hex_printed n p =
    ap (λ o. elim o as (λ x. Bool) [ none ↦ false | some d ↦ true ])
      (hex_digit-hex_char (p / 16 ^ n % 16) (omega arith))

-- A number as it is printed is read back.
stoull-print_digits : (p : ℕ) → p < 2 ^ 64 → stoull (print_digits 16 p) ≡ some p
unfolding stoull
stoull-print_digits p small =
    let printed = print_digits-IsPrinted 16 p in
    let value : read_hex 0 (print_digits 16 p) ≡ p = read_hex-print_digits 16 0 p ∙ omega arith in
    let fits : leb (2 ^ 64) p ≡ false = ground (arith, small) in
    rw
      (
        skip_space_printed (print_digits 16 p) printed,
        read_sign_printed (print_digits 16 p) printed,
        skip_prefix_printed (print_digits 16 p) printed,
        starts_hex_printed 15 p,
        value,
        fits,
      )
      refl

parse_line-print_digits : (p : ℕ) → p < 2 ^ 64 → parse_line (print_digits 16 p) ≡ some p
unfolding parse_line
parse_line-print_digits p small =
    rw
      (strip_cr_printed (print_digits 16 p) (print_digits-IsPrinted 16 p), length-print_digits 16 p)
      (stoull-print_digits p small)

-- A text whose last line is complete.
abbrev pub IsComplete : List ℕ → Type 0
IsComplete [] = Unit
IsComplete (c ∷ []) = c ≡ 10
IsComplete (c ∷ d ∷ cs) = IsComplete (d ∷ cs)

lines_cons :
    (c : ℕ) (cs : List ℕ)
    → lines (c ∷ cs) ≡ (if c == 10 then [] ∷ lines cs else extend c (lines cs))
unfolding lines
lines_cons c cs = refl

extend_some :
    (c : ℕ) (ls : List (List ℕ)) → (l : List ℕ) × (ms : List (List ℕ)) × (extend c ls ≡ l ∷ ms)
unfolding extend
extend_some c [] = (c ∷ [], [], refl)
extend_some c (l ∷ ls) = (c ∷ l, ls, refl)

-- A text with a character has a line.
lines_some : (c : ℕ) (cs : List ℕ) → (l : List ℕ) × (ls : List (List ℕ)) × (lines (c ∷ cs) ≡ l ∷ ls)
lines_some c cs = elim (Bool-cases (c == 10)) [
  | inl newline ↦ ([], lines cs, lines_cons c cs ∙ rw newline refl)
  | inr other ↦ let (l, ls, e) = extend_some c (lines cs) in (l, ls, lines_cons c cs ∙ rw other e)
]

extend-append :
    (c : ℕ) (l : List ℕ) (ls ms : List (List ℕ))
    → extend c ((l ∷ ls) ++ ms) ≡ extend c (l ∷ ls) ++ ms
unfolding extend
extend-append c l ls ms = refl

lines-append : (old more : List ℕ) → IsComplete old → lines (old ++ more) ≡ lines old ++ lines more
lines-append [] more v = unfold lines in refl
lines-append (c ∷ []) more v =
    let newline : (c == 10) ≡ true = ground (arith, v) in unfold lines in rw newline refl
lines-append (c ∷ d ∷ cs) more v =
    let rest = lines-append (d ∷ cs) more v in
    let (l, ls, e) = lines_some d cs in
    elim (Bool-cases (c == 10)) [
      | inl newline ↦
          let here : lines (c ∷ d ∷ cs) ≡ [] ∷ lines (d ∷ cs) =
            lines_cons c (d ∷ cs) ∙ rw newline refl in
          let there : lines (c ∷ d ∷ cs ++ more) ≡ [] ∷ lines (d ∷ cs ++ more) =
            lines_cons c (d ∷ cs ++ more) ∙ rw newline refl in
          there ∙ ap (◌∷◌ []) rest ∙ ap (λ ms. ms ++ lines more) (sym here)
      | inr other ↦
          let here : lines (c ∷ d ∷ cs) ≡ extend c (l ∷ ls) =
            lines_cons c (d ∷ cs) ∙ rw other (ap (extend c) e) in
          let there : lines (c ∷ d ∷ cs ++ more) ≡ extend c (lines (d ∷ cs ++ more)) =
            lines_cons c (d ∷ cs ++ more) ∙ rw other refl in
          there
          ∙ ap (extend c) (rest ∙ ap (λ ms. ms ++ lines more) e)
          ∙ extend-append c l ls (lines more)
          ∙ ap (λ ms. ms ++ lines more) (sym here)
    ]

parse_all-append : (ls ms : List (List ℕ)) → parse_all (ls ++ ms) ≡ parse_all ls ++ parse_all ms
unfolding parse_all
parse_all-append [] ms = refl
parse_all-append (l ∷ ls) ms =
    ap (add_payload (parse_line l)) (parse_all-append ls ms)
    ∙ add_payload-append (parse_line l) (parse_all ls)
  where
    add_payload-append :
        (o : Option ℕ) (ps : List ℕ)
        → add_payload o (ps ++ parse_all ms) ≡ add_payload o ps ++ parse_all ms
    add_payload-append none ps = refl
    add_payload-append (some p) ps = refl

parse_all-print_lines :
    (ps : List ℕ) → All (λ p. p < 2 ^ 64) ps → parse_all (lines (print_lines ps)) ≡ ps
unfolding parse_all print_lines
parse_all-print_lines [] v = unfold lines in refl
parse_all-print_lines (p ∷ ps) v =
    ap parse_all (lines_line (print_digits 16 p) (print_lines ps) (print_digits-IsPrinted 16 p))
    ∙ ap (λ o. add_payload o (parse_all (lines (print_lines ps)))) (parse_line-print_digits p v.0)
    ∙ ap (◌∷◌ p) (parse_all-print_lines ps v.1)

-- The lines that are appended to a file, whose last line was complete, add their payloads to those
-- that a later scan reads from it.
pub payloads_of-print_lines :
    (old ps : List ℕ)
    → IsComplete old
    → All (λ p. p < 2 ^ 64) ps
    → payloads_of (old ++ print_lines ps) ≡ payloads_of old ++ ps
unfolding payloads_of
payloads_of-print_lines old ps complete small =
    ap parse_all (lines-append old (print_lines ps) complete)
    ∙ parse_all-append (lines old) (lines (print_lines ps))
    ∙ ap (◌++◌ (parse_all (lines old))) (parse_all-print_lines ps small)

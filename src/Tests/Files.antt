-- ===== src/Tests/Files.antt =====
-- Tests of the files of the RC4 registry.
use openstint.Base.{List, [], arith, contains, refl, some, sym, true, ℕ, ◌++◌, ◌∙◌, ◌∷◌, ◌≡◌, ℕ_key}
use openstint.Rc4.Lines.{
  payloads_of, parse_all, parse_line, lines, extend, strip_cr, stoull, skip_space, read_sign,
  skip_prefix, starts_hex, read_hex, hex_digit, print_lines, print_digits,
}
use openstint.Rc4.Lines.Roundtrip.{payloads_of-print_lines}
use openstint.Rc4.Registry.{lookup}
use openstint.Rc4.FileBased.{
  DirectoryEntry, new_file_based, file_id, same_text, all_digits, read_digits, resync,
}
use openstint.Rc4.FileBased.Current.{resync-has_file, has_file, run, stores, resyncs}

-- "12" with a carriage return, which is too short, and a complete line.
abbrev old_text : List ℕ
old_text = 49 ∷ 50 ∷ 13 ∷ 10 ∷ print_lines (0xabcdef ∷ [])

payloads_of-print_lines_example :
    payloads_of (old_text ++ print_lines (0x0123456789abcdef ∷ 7 ∷ []))
    ≡ 0xabcdef ∷ 0x0123456789abcdef ∷ 7 ∷ []
unfolding payloads_of parse_all parse_line lines extend strip_cr stoull skip_space read_sign
    skip_prefix starts_hex read_hex hex_digit print_lines print_digits
payloads_of-print_lines_example =
    payloads_of-print_lines old_text (0x0123456789abcdef ∷ 7 ∷ []) refl
      (omega arith, (omega arith, tt))

-- "1234.rc4"
abbrev pub file : DirectoryEntry
file = record {
  is_regular_file = true;
  stem = 49 ∷ 50 ∷ 51 ∷ 52 ∷ [];
  extension = 46 ∷ 114 ∷ 99 ∷ 52 ∷ [];
  text = print_lines (77 ∷ []);
}

pub file_id-file : file_id file ≡ some 1234
unfolding file_id same_text all_digits read_digits
file_id-file = refl

-- A file is there, a transponder is learned, and then both files are gone.
resync-has_file_example :
    ((q id : ℕ)
      → lookup q
          (resync [] (run (resyncs (file ∷ []) ∷ stores 0 (5 ∷ []) ∷ []) new_file_based)).base
        ≡ some id
      → has_file id [] ≡ true)
    × ((id : ℕ)
        → contains id
            (resync []
              (run (resyncs (file ∷ []) ∷ stores 0 (5 ∷ []) ∷ []) new_file_based)).loaded_ids
          ≡ has_file id [])
resync-has_file_example =
    resync-has_file (resyncs (file ∷ []) ∷ stores 0 (5 ∷ []) ∷ []) []
      ((λ e. absurd (cc (sym file_id-file ∙ e)), tt), (tt, tt)) tt

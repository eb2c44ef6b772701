-- ===== src/Programs/Arguments.antt =====
-- The command lines of src/main_hackrf.cpp and src/main_rtlsdr.cpp, with `parse_common_arguments` of
-- src/commons.cpp. An argument is the list of its character codes; the usage text is left out.
pub mod Gains
use openstint.Base.{
  Bool, List, Option, [], false, if◌then◌else◌, leb, ltb, none, some, true, ℕ, ◌%◌, ◌&&◌, ◌*◌, ◌++◌,
  ◌+◌, ◌-◌, ◌/◌, ◌==◌, ◌>>=◌, ◌||◌, ◌∷◌,
}
use openstint.Base.Int.{ℤ, pos, negsuc, ◌-ℤ◌, ◌*ℤ◌}
use openstint.Rc4.FileBased.{same_text}

-- `std::atoi`, for values that fit an `int`: white space, a sign, and the digits as far as they go.
unfoldable pub decimal : ℕ → List ℕ → ℕ
decimal v [] = v
decimal v (c ∷ cs) =
    let rest = decimal (v * 10 + (c - 48)) cs in if leb 48 c && leb c 57 then rest else v

unfoldable pub signed : List ℕ → ℤ
unfolding decimal
signed [] = pos 0
signed (c ∷ cs) =
    if c == 45
    then pos 0 -ℤ pos (decimal 0 cs)
    else if c == 43
    then pos (decimal 0 cs)
    else pos (decimal 0 (c ∷ cs))

unfoldable pub atoi : List ℕ → ℤ
atoi [] = pos 0
atoi (c ∷ cs) =
    let rest = atoi cs in if (c == 32) || (leb 9 c && leb c 13) then rest else signed (c ∷ cs)

-- The conversion of an `int` to `uint8_t`.
unfoldable pub uint8_of : ℤ → ℕ
uint8_of (pos n) = n % 256
uint8_of (negsuc n) = 255 - n % 256

-- `arg == "-x"`, and the same with `i + 1 < argc`, with the value behind it.
abbrev pub is_option : ℕ → List ℕ → Bool
is_option letter arg = same_text arg (45 ∷ letter ∷ [])

abbrev pub valued : ℕ → List ℕ → Option (List ℕ) → Option (List ℕ)
valued letter arg next = if is_option letter arg then next else none

pub record CommonArguments : Type 0 where
  pub zmq_port : ℤ
  pub monitor_mode : Bool
  pub mode_sysclk : Bool
  pub storage_dir : List ℕ

abbrev pub new_common : CommonArguments
new_common = record {
  zmq_port = pos 5556;
  monitor_mode = false;
  mode_sysclk = false;
  storage_dir = 46 ∷ [];
}

-- The chain of tests; the flag is whether the next argument was taken, `none` is the result false.
unfoldable pub parse_common_arguments :
    List ℕ → Option (List ℕ) → CommonArguments → Option (CommonArguments × Bool)
parse_common_arguments arg next c = elim (valued 112 arg next) [
  | some port ↦ some (record c { zmq_port = atoi port }, true)
  | none ↦
      if is_option 109 arg
      then some (record c { monitor_mode = true }, false)
      else if is_option 116 arg
      then some (record c { mode_sysclk = true }, false)
      else elim (valued 115 arg next) [
        | some dir ↦ some (record c { storage_dir = dir }, true)
        | none ↦ none
      ]
]

pub record HackrfArguments : Type 0 where
  pub serial : Option (List ℕ)
  pub lna_gain : ℕ
  pub vga_gain : ℕ
  pub bias_tee : Bool
  pub amp_enable : Bool
  pub capture_files : List (List ℕ)
  pub common : CommonArguments

abbrev pub new_hackrf : HackrfArguments
new_hackrf = record {
  serial = none;
  lna_gain = 24;
  vga_gain = 20;
  bias_tee = false;
  amp_enable = false;
  capture_files = [];
  common = new_common;
}

-- The two gains, in their steps; `none` is a value out of range.
unfoldable pub with_lna : List ℕ → HackrfArguments → Option HackrfArguments
with_lna value a =
    let gain = uint8_of (atoi value) / 8 * 8 in
    if ltb 40 gain then none else some (record a { lna_gain = gain })

unfoldable pub with_vga : List ℕ → HackrfArguments → Option HackrfArguments
with_vga value a =
    let gain = uint8_of (atoi value) / 2 * 2 in
    if ltb 62 gain then none else some (record a { vga_gain = gain })

-- The options without the gains.
unfoldable pub hackrf_flag :
    List ℕ → Option (List ℕ) → HackrfArguments → Option (HackrfArguments × Bool)
hackrf_flag arg next a =
    if is_option 98 arg
    then some (record a { bias_tee = true }, false)
    else if is_option 97 arg
    then some (record a { amp_enable = true }, false)
    else elim (valued 99 arg next) [
      | some file ↦ some (record a { capture_files = a.capture_files ++ file ∷ [] }, true)
      | none ↦ do
        (common, taken) ← parse_common_arguments arg next a.common
        some (record a { common = common }, taken)
    ]

-- One argument; `none` is the end of the program with the status 1.
unfoldable pub hackrf_argument :
    List ℕ → Option (List ℕ) → HackrfArguments → Option (HackrfArguments × Bool)
hackrf_argument arg next a = elim (valued 100 arg next) [
  | some serial ↦ some (record a { serial = some serial }, true)
  | none ↦ elim (valued 108 arg next) [
    | some gain ↦ do a' ← with_lna gain a; some (a', true)
    | none ↦ elim (valued 118 arg next) [
      | some gain ↦ do a' ← with_vga gain a; some (a', true)
      | none ↦ hackrf_flag arg next a
    ]
  ]
]

-- The loop over the arguments.
unfoldable pub hackrf_arguments : List (List ℕ) → HackrfArguments → Option HackrfArguments
hackrf_arguments [] a = some a
hackrf_arguments (arg ∷ []) a = do (a', taken) ← hackrf_argument arg none a; some a'
hackrf_arguments (arg ∷ next ∷ args) a = do
  (a', taken) ← hackrf_argument arg (some next) a
  if taken then hackrf_arguments args a' else hackrf_arguments (next ∷ args) a'

pub record RtlsdrArguments : Type 0 where
  pub serial : Option (List ℕ)
  pub gain_tenths_db : ℤ
  pub bias_tee : Bool
  pub capture_files : List (List ℕ)
  pub common : CommonArguments

abbrev pub new_rtlsdr : RtlsdrArguments
new_rtlsdr = record {
  serial = none;
  gain_tenths_db = pos 200;
  bias_tee = false;
  capture_files = [];
  common = new_common;
}

unfoldable pub rtlsdr_argument :
    List ℕ → Option (List ℕ) → RtlsdrArguments → Option (RtlsdrArguments × Bool)
rtlsdr_argument arg next a = elim (valued 100 arg next) [
  | some serial ↦ some (record a { serial = some serial }, true)
  | none ↦ elim (valued 103 arg next) [
    | some gain ↦ some (record a { gain_tenths_db = atoi gain *ℤ pos 10 }, true)
    | none ↦
        if is_option 98 arg
        then some (record a { bias_tee = true }, false)
        else elim (valued 99 arg next) [
          | some file ↦ some (record a { capture_files = a.capture_files ++ file ∷ [] }, true)
          | none ↦ do
            (common, taken) ← parse_common_arguments arg next a.common
            some (record a { common = common }, taken)
        ]
  ]
]

unfoldable pub rtlsdr_arguments : List (List ℕ) → RtlsdrArguments → Option RtlsdrArguments
rtlsdr_arguments [] a = some a
rtlsdr_arguments (arg ∷ []) a = do (a', taken) ← rtlsdr_argument arg none a; some a'
rtlsdr_arguments (arg ∷ next ∷ args) a = do
  (a', taken) ← rtlsdr_argument arg (some next) a
  if taken then rtlsdr_arguments args a' else rtlsdr_arguments (next ∷ args) a'

-- ===== src/Programs/Capture.antt =====
-- `replay_capture` of src/capture.cpp, and the callbacks of src/main_hackrf.cpp and src/main_rtlsdr.cpp that
-- make samples of its bytes. Pacing and messages are left out.
pub mod Complete
pub mod Files
use openstint.Base.{
  List, Option, [], drop, if◌then◌else◌, length, ltb, none, some, suc, take, zero, ℕ, ◌*◌, ◌++◌,
  ◌-◌, ◌/◌, ◌==◌, ◌∷◌,
}
use openstint.Base.Int.{ℤ, pos, negsuc, sub_ℕ}
use openstint.Detector.{Complex}

-- A byte read as an `int8_t`, as `file_rx_callback` does for the whole buffer.
unfoldable pub int8_of : ℕ → ℤ
int8_of byte = if ltb byte 128 then pos byte else negsuc (255 - byte)

-- `static_cast<int8_t>(buf[i] - 128)`, which fits.
unfoldable pub centred_byte : ℕ → ℤ
centred_byte byte = sub_ℕ byte 128

-- The `len / 2` samples of a buffer; a last odd byte belongs to none.
unfoldable pub samples_of : (ℕ → ℤ) → List ℕ → List Complex
samples_of read (a ∷ b ∷ bytes) = record { re = read a; im = read b } ∷ samples_of read bytes
samples_of read bytes = []

-- What `file_rx_callback` and the `rx_callback` of the RTL-SDR pass to `detect_frames`.
unfoldable pub hackrf_samples : List ℕ → List Complex
unfolding int8_of
hackrf_samples bytes = samples_of int8_of bytes

unfoldable pub rtlsdr_samples : List ℕ → List Complex
unfolding centred_byte
rtlsdr_samples bytes = samples_of centred_byte bytes

-- `CHUNK_BYTES`
abbrev pub chunk_bytes : ℕ
chunk_bytes = 32768

-- The calls that the replay makes.
pub data Step : Type 0 where
  feeds : List ℕ → Step
  reports : Step

-- The loop over a stream, beside the rounds that are left until a signal sets `do_exit`; zero is
-- that it is set.
unfoldable pub replay_stream : ℕ → List ℕ → List Step × ℕ
replay_stream zero bytes = ([], zero)
replay_stream (suc n) bytes =
    let byte_count = length (take chunk_bytes bytes) / 2 * 2 in
    let (steps, left) = replay_stream n (drop chunk_bytes bytes) in
    if byte_count == 0 then ([], suc n) else (feeds (take byte_count bytes) ∷ reports ∷ steps, left)

-- One source; `none` is a file that cannot be opened.
unfoldable pub replay_source : Option (List ℕ) → ℕ → List Step × ℕ
replay_source none n = ([], n)
replay_source (some bytes) n =
    let (steps, left) = replay_stream n bytes in (steps ++ reports ∷ [], left)

-- The loop over the sources, of which the standard input is one.
unfoldable pub replay_capture : List (Option (List ℕ)) → ℕ → List Step
replay_capture [] n = []
replay_capture (s ∷ sources) zero = []
replay_capture (s ∷ sources) (suc n) =
    let (steps, left) = replay_source s (suc n) in steps ++ replay_capture sources left

-- All samples that reach `detect_frames` through a callback, in their order.
unfoldable pub samples_fed : (ℕ → ℤ) → List Step → List Complex
samples_fed read [] = []
samples_fed read (feeds bytes ∷ steps) = samples_of read bytes ++ samples_fed read steps
samples_fed read (reports ∷ steps) = samples_fed read steps

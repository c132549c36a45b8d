-- ===== src/IniReader.antt =====
-- IniReader: include/logger/ini_reader.hpp. A text is the list of its bytes. The file is an argument,
-- `none` if it cannot be opened. The functions of std::string and `std::stoul` that are called are
-- written out; `std::tolower` and `isspace` are those of the C locale.
mod Text
pub mod Trimming
pub mod RoundTrip
mod Tests
unfoldable pub use Text.{trim, to_lower, stoul, codes, bytes_eq}
use nebula_toolkit.Prelude.{
  ℕ, ◌+◌, ◌-◌, Bool, true, false, ◌&&◌, ◌||◌, Option, none, some, List, [], ◌∷◌, Bytes, length,
  get_or, take, drop, ◌==◌, if◌then◌else◌,
}
use Text.{find, lines}

-- `line.front() == '[' && line.back() == ']'`, on a line that is not empty
unfoldable pub is_section_header : Bytes → Bool
is_section_header line = get_or line 0 0 == b'[' && get_or line (length line - 1) 0 == b']'

unfoldable pub extract_section_name : Bytes → Bytes
extract_section_name line = take (length line - 2) (drop 1 line)

abbrev pub key_value_at : Bytes → Option ℕ → Bytes × Bytes
key_value_at line none = ([], [])
key_value_at line (some pos) = (trim (take pos line), trim (drop (pos + 1) line))

unfoldable pub split_key_value : Bytes → Bytes × Bytes
split_key_value line = key_value_at line (find b'=' line)

abbrev pub before : Bytes → Option ℕ → Bytes
before s none = s
before s (some pos) = take pos s

unfoldable pub split_comment : Bytes → Bytes
split_comment s = before s (find b';' s)

module _ (section key : Bytes) where
  -- the loop of `GetRawValue` over the lines that are left
  unfoldable pub scan_lines : Bool → List Bytes → Bytes
  scan_lines in_section [] = []
  scan_lines in_section (raw ∷ rest) =
      let line = trim raw in
      let (current_key, value) = split_key_value line in
      let skipped = scan_lines in_section rest in
      let entered = scan_lines (bytes_eq (extract_section_name line) section) rest in
      if length line == 0
      then skipped
      else if is_section_header line
      then entered
      else if in_section && bytes_eq current_key key
      then value
      else skipped

  unfoldable pub get_raw_value : Option Bytes → Bytes
  unfolding scan_lines
  get_raw_value none = []
  get_raw_value (some file) = scan_lines false (lines file)

  unfoldable pub get_processed_value : Option Bytes → Bytes
  unfolding get_raw_value split_comment
  get_processed_value file = trim (split_comment (get_raw_value file))

  -- `GetValue` returns whether there is a value, beside the variable that it may set.
  unfoldable pub get_string : Option Bytes → Bytes → Bool × Bytes
  unfolding get_processed_value
  get_string file out_value =
      let raw = get_processed_value file in
      if length raw == 0 then (false, out_value) else (true, raw)

  unfoldable pub get_bool : Option Bytes → Bool → Bool × Bool
  unfolding get_processed_value
  get_bool file out_value =
      let found = get_processed_value file in
      let raw = to_lower found in
      if length found == 0
      then (false, out_value)
      else if bytes_eq raw (codes "true") || bytes_eq raw (codes "1")
      then (true, true)
      else if bytes_eq raw (codes "false") || bytes_eq raw (codes "0")
      then (true, false)
      else (false, out_value)

  abbrev pub or_keep : Option ℕ → ℕ → Bool × ℕ
  or_keep none out_value = (false, out_value)
  or_keep (some n) out_value = (true, n)

  unfoldable pub get_size : Option Bytes → ℕ → Bool × ℕ
  unfolding get_processed_value
  get_size file out_value =
      let raw = get_processed_value file in
      if length raw == 0 then (false, out_value) else or_keep (stoul raw) out_value

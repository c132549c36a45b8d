-- ===== src/IniReader/Tests.antt =====
-- Runs of the reader of configuration files, and the theorems about it at concrete texts.
use nebula_toolkit.IniReader.RoundTrip.{
  Section, lacks-Lacks, Sections, IsKey, IsValue, render, unlines, get_processed_value-lookup,
}
use nebula_toolkit.IniReader.Text.{trim, find, lines, bytes_eq, is_blank, stoul, to_lower, codes}
use nebula_toolkit.IniReader.{
  get_processed_value, get_raw_value, get_size, get_bool, scan_lines, split_key_value,
  is_section_header, extract_section_name, split_comment,
}
use nebula_toolkit.Prelude.{ℕ, ◌==◌, ◌≡◌, refl, true, false, some, List, [], ◌∷◌, Bytes}

-- the beginning of `configs/log_config.ini`
abbrev text : Bytes
text =
    codes
      "[LOG_GLOBAL]\nmax_file_size_kb = 1024 ; KB\nprint_line = True\n\n[LOG_ASYNC]\nbatch_size_kb = 4;\n"

get_size_there :
    get_size (codes "LOG_GLOBAL") (codes "max_file_size_kb") (some text) 7 ≡ (true, 1024)
unfolding get_size get_processed_value get_raw_value scan_lines split_key_value is_section_header
    extract_section_name split_comment trim find lines bytes_eq stoul
get_size_there = refl

get_bool_there : get_bool (codes "LOG_GLOBAL") (codes "print_line") (some text) false ≡ (true, true)
unfolding get_bool get_processed_value get_raw_value scan_lines split_key_value is_section_header
    extract_section_name split_comment trim find lines bytes_eq to_lower
get_bool_there = refl

get_size_missing : get_size (codes "LOG_GLOBAL") (codes "batch_size_kb") (some text) 7 ≡ (false, 7)
unfolding get_size get_processed_value get_raw_value scan_lines split_key_value is_section_header
    extract_section_name split_comment trim find lines bytes_eq stoul
get_size_missing = refl

abbrev two_sections : List Section
two_sections =
    record { name = codes "A"; entries = (codes "x", codes "1") ∷ [] }
    ∷ record { name = codes "B"; entries = (codes "y", codes "a b") ∷ (codes "x", codes "2") ∷ [] }
    ∷ []

x-IsKey : IsKey (codes "x")
x-IsKey = record {
  trimmed = (refl, refl);
  nonempty = refl;
  no_equals = (refl, tt);
  no_bracket = refl;
  no_newline = (refl, tt);
}

one_byte :
    (c : ℕ) → is_blank c ≡ false → (c == b';') ≡ false → (c == b'\n') ≡ false → IsValue (c ∷ [])
one_byte c h k l = record {
  trimmed = rw h (refl, refl);
  no_comment = (k, tt);
  no_newline = (l, tt);
}

two_sections-Sections : Sections two_sections
two_sections-Sections = (
  (refl, tt),
  (x-IsKey, one_byte b'1' refl refl refl, tt),
  (
    (refl, tt),
    (
      record {
        trimmed = (refl, refl);
        nonempty = refl;
        no_equals = (refl, tt);
        no_bracket = refl;
        no_newline = (refl, tt);
      },
      record {
        trimmed = (refl, refl);
        no_comment = lacks-Lacks b';' (codes "a b") refl;
        no_newline = lacks-Lacks b'\n' (codes "a b") refl;
      },
      (x-IsKey, one_byte b'2' refl refl refl, tt),
    ),
    tt,
  ),
)

get_processed_value-lookup_example :
    get_processed_value (codes "B") (codes "x") (some (unlines (render two_sections))) ≡ codes "2"
unfolding bytes_eq
get_processed_value-lookup_example =
    get_processed_value-lookup (codes "B") (codes "x") two_sections two_sections-Sections

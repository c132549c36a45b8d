-- ===== src/Logger/Files.antt =====
-- The log files: `FileManager`, `RotateFileIfNeeded`, `OpenNewFile` and the write of `CustThreadProc`.
-- The disk is a parameter: `open_at disk name` is the size of the file once it is opened for appending,
-- where the next write goes, or `none` where it cannot be opened. The dates are arguments.
pub mod Bounds
use nebula_toolkit.IniReader.{codes, bytes_eq}
use nebula_toolkit.Prelude.{
  ℕ, zero, suc, ◌+◌, ◌/◌, ◌%◌, ◌^◌, ◌-◌, Bool, true, false, not, Option, none, some, List, [], ◌∷◌,
  ◌++◌, Bytes, length, ltb, if◌then◌else◌, ◌>>=◌, add_size,
}

-- an open file: its name, its position, and what was appended to it since it was opened
pub record LogFile : Type 0 where
  pub name : Bytes
  pub position : ℕ
  pub appended : Bytes

-- `earlier` are the files that were closed, the last one first.
pub record FileManager : Type 0 where
  pub file : Option LogFile
  pub current_date : Bytes
  pub current_index : ℕ
  pub earlier : List LogFile

abbrev pub new_manager : FileManager
new_manager = record { file = none; current_date = []; current_index = 0; earlier = [] }

-- `std::to_string`: twenty digits are enough for a `size_t`
abbrev pub digits : ℕ → ℕ → Bytes
digits zero n = []
digits (suc f) n =
    let rest = digits f (n / 10) in
    if ltb n 10 then (b'0' + n) ∷ [] else rest ++ (b'0' + n % 10) ∷ []

abbrev pub to_string : ℕ → Bytes
to_string n = digits 20 n

unfoldable pub file_name : Bytes → Bytes → ℕ → Bytes
file_name log_directory date index =
    log_directory ++ codes "/" ++ date ++ codes "_" ++ to_string index ++ codes ".log"

-- `file.close()`, if it is open
abbrev pub close_file : Option LogFile → List LogFile → List LogFile
close_file none earlier = earlier
close_file (some f) earlier = f ∷ earlier

-- `tellp()`, compared as a `size_t`: -1 where no file is open
abbrev pub tellp : Option LogFile → ℕ
tellp none = 2 ^ 64 - 1
tellp (some f) = f.position

module _ {Disk : Type 0} (open_at : Disk → Bytes → Option ℕ × Disk) (log_directory : Bytes) where
  -- The `std::runtime_error` of a file that cannot be opened is `none`.
  unfoldable pub open_new_file : Disk → FileManager → Option (Disk × FileManager)
  open_new_file d m =
      let name = file_name log_directory m.current_date m.current_index in
      let (opened, d') = open_at d name in
      do
        position ← opened
        some (
          d',
          record m {
            file = some (record { name = name; position = position; appended = [] });
            earlier = close_file m.file m.earlier;
          },
        )

  unfoldable pub rotate_file_if_needed :
      Disk → FileManager → Bytes → ℕ → Option (Disk × FileManager)
  rotate_file_if_needed d m date max_file_size =
      if not (bytes_eq date m.current_date)
      then open_new_file d (record m { current_date = date; current_index = 0 })
      else if ltb max_file_size (tellp m.file)
      then open_new_file d (record m { current_index = add_size m.current_index 1 })
      else some (d, m)

  -- a write to a file that is not open is lost
  abbrev pub append : Option LogFile → Bytes → Option LogFile
  append none block = none
  append (some f) block =
      some (record f { position = f.position + length block; appended = f.appended ++ block })

  -- `RotateFileIfNeeded` and `file.write` of a round of `CustThreadProc`
  unfoldable pub write_block : Disk → FileManager → Bytes → ℕ → Bytes → Option (Disk × FileManager)
  write_block d m date max_file_size block = do
    (d', m') ← rotate_file_if_needed d m date max_file_size
    some (d', record m' { file = append m'.file block })

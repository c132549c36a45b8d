-- ===== src/Logger/Files/Bounds.antt =====
-- How large the log files grow, and what they hold together.
use mathlib.Core.List.{append-nil, append_assoc}
use nebula_toolkit.IniReader.{bytes_eq}
use nebula_toolkit.Logger.Files.{
  LogFile, FileManager, file_name, close_file, tellp, open_new_file, rotate_file_if_needed, append,
  write_block,
}
use nebula_toolkit.Prelude.{
  ℕ, ◌+◌, ◌-◌, ◌^◌, ◌≤◌, ◌<◌, ◌≡◌, ◌∙◌, refl, sym, ap, false, Option, none, some, List, [], ◌∷◌,
  ◌++◌, Bytes, length, length-append, arith, ltb, >>=-eq-some, Bool-cases, inl, inr, add_size,
}

-- what was appended to the files, the first file first
abbrev pub appended_to : List LogFile → Bytes
appended_to [] = []
appended_to (f ∷ fs) = appended_to fs ++ f.appended

abbrev pub log_of : FileManager → Bytes
log_of m = appended_to (close_file m.file m.earlier)

-- No file has more than `bound` bytes appended.
abbrev pub AllSmall : ℕ → List LogFile → Type 0
AllSmall bound [] = Unit {0}
AllSmall bound (f ∷ fs) = (length f.appended ≤ bound) × AllSmall bound fs

-- The position in the file that is open is at least the number of bytes appended to it since it was opened.
abbrev pub InStep : Option LogFile → Type 0
InStep none = Unit {0}
InStep (some f) = length f.appended ≤ f.position

pub record IsBounded (bound : ℕ) (m : FileManager) : Type 0 where
  pub small : AllSmall bound (close_file m.file m.earlier)
  pub in_step : InStep m.file

-- On a usable disk a file can be opened for appending, whatever is in it, and the disk stays usable.
pub record CanOpen {Disk : Type 0} (open_at : Disk → Bytes → Option ℕ × Disk)
    (usable : Disk → Type 0) : Type 0 where
  pub opens : (d : Disk) (name : Bytes) → usable d → (p : ℕ) × ((open_at d name).0 ≡ some p)
  pub stays : (d : Disk) (name : Bytes) → usable d → usable (open_at d name).1

pair_eq :
    {A B : Type 0} {a a' : A} {b b' : B}
    → ◌≡◌ {A = Option (A × B)} (some (a, b)) (some (a', b'))
    → b ≡ b'
pair_eq e = cc

-- A file is open, with no more than the limit appended to it, and the log is as it was.
record Ready (bound limit : ℕ) (log : Bytes) (m : FileManager) : Type 0 where
  current : LogFile
  is_open : m.file ≡ some current
  room : length current.appended ≤ limit
  step : length current.appended ≤ current.position
  others : AllSmall bound m.earlier
  same_log : log_of m ≡ log

module _ {Disk : Type 0} (open_at : Disk → Bytes → Option ℕ × Disk) (log_directory : Bytes) where
  open_new_file-Ready :
      (bound limit : ℕ) (d : Disk) (m : FileManager) {d' : Disk} {m' : FileManager}
      → IsBounded bound m
      → open_new_file open_at log_directory d m ≡ some (d', m')
      → Ready bound limit (log_of m) m'
  unfolding open_new_file
  open_new_file-Ready bound limit d m {d'} {m'} b e =
      let name = file_name log_directory m.current_date m.current_index in
      let (p, opened, eq) = >>=-eq-some (open_at d name).0 _ e in
      let f : LogFile = record { name = name; position = p; appended = [] } in
      let same : record m { file = some f; earlier = close_file m.file m.earlier } ≡ m' = cc in
      rw (← same) (record {
        current = f;
        is_open = refl;
        room = omega arith;
        step = omega arith;
        others = b.small;
        same_log = append-nil (log_of m);
      })

  -- the file that is open is used further
  staying-Ready :
      (bound limit : ℕ) (m : FileManager) (o : Option LogFile)
      → m.file ≡ o
      → limit < 2 ^ 64 - 1
      → IsBounded bound m
      → ltb limit (tellp m.file) ≡ false
      → Ready bound limit (log_of m) m
  staying-Ready bound limit m none e small b room =
      absurd (let room' : ltb limit (2 ^ 64 - 1) ≡ false = rw e at room in ground arith)
  staying-Ready bound limit m (some f) e small b room =
      let step : length f.appended ≤ f.position = rw e at b.in_step in
      let room' : ltb limit f.position ≡ false = rw e at room in
      let all : AllSmall bound (f ∷ m.earlier) = rw e at b.small in
      record {
        current = f;
        is_open = e;
        room = ground arith;
        step = step;
        others = all.1;
        same_log = refl;
      }

  rotate-Ready :
      (bound limit : ℕ) (d : Disk) (m : FileManager) (date : Bytes) {d' : Disk} {m' : FileManager}
      → limit < 2 ^ 64 - 1
      → IsBounded bound m
      → rotate_file_if_needed open_at log_directory d m date limit ≡ some (d', m')
      → Ready bound limit (log_of m) m'
  unfolding rotate_file_if_needed
  rotate-Ready bound limit d m date {d'} {m'} small b e =
      elim (Bool-cases (bytes_eq date m.current_date)) [
        | inr other_day ↦
            open_new_file-Ready bound limit d (record m { current_date = date; current_index = 0 })
              (record { small = b.small; in_step = b.in_step }) (rw other_day at e)
        | inl same_day ↦ elim (Bool-cases (ltb limit (tellp m.file))) [
          | inl full ↦
              open_new_file-Ready bound limit d
                (record m { current_index = add_size m.current_index 1 })
                (record { small = b.small; in_step = b.in_step }) (rw (same_day, full) at e)
          | inr room ↦
              let e' : some (d, m) ≡ some (d', m') = rw (same_day, room) at e in
              let same : m ≡ m' = pair_eq e' in
              rw (← same) (staying-Ready bound limit m m.file refl small b room)
        ]
      ]

  append-IsBounded :
      (bound limit size : ℕ) (log : Bytes) (m : FileManager) (block : Bytes)
      → limit + size ≤ bound
      → length block ≤ size
      → Ready bound limit log m
      → let m' = record m { file = append open_at log_directory m.file block } in
        IsBounded bound m' × (log_of m' ≡ log ++ block)
  append-IsBounded bound limit size log m block large fits r =
      let l = length-append r.current.appended block in
      let len = r.room in
      let step = r.step in
      let before : appended_to m.earlier ++ r.current.appended ≡ log = rw r.is_open at r.same_log in
      rw r.is_open (
        record { small = (omega arith, r.others); in_step = omega arith },
        sym (append_assoc (appended_to m.earlier) r.current.appended block)
            ∙ ap (λ q. q ++ block) before,
      )

  pub write_block-IsBounded :
      (bound limit size : ℕ) (d : Disk) (m : FileManager) (date block : Bytes) {d' : Disk}
      {m' : FileManager}
      → limit < 2 ^ 64 - 1
      → limit + size ≤ bound
      → length block ≤ size
      → IsBounded bound m
      → write_block open_at log_directory d m date limit block ≡ some (d', m')
      → IsBounded bound m' × (log_of m' ≡ log_of m ++ block)
  unfolding write_block
  write_block-IsBounded bound limit size d m date block {d'} {m'} small large fits b e =
      let ((d1, m1), rotated, eq) =
        >>=-eq-some (rotate_file_if_needed open_at log_directory d m date limit) _ e in
      let r = rotate-Ready bound limit d m date small b rotated in
      let after : record m1 { file = append open_at log_directory m1.file block } ≡ m' =
        pair_eq eq in
      rw (← after) (append-IsBounded bound limit size (log_of m) m1 block large fits r)

  module _ {usable : Disk → Type 0} (can : CanOpen open_at usable) where
    open_new_file_returns :
        (d : Disk) (m : FileManager)
        → usable d
        → (d' : Disk) × (m' : FileManager) × (open_new_file open_at log_directory d m
            ≡ some (d', m'))
          × usable d'
    unfolding open_new_file
    open_new_file_returns d m ready =
        let name = file_name log_directory m.current_date m.current_index in
        let (p, opened) = can.opens d name ready in
        (
          (open_at d name).1,
          record m {
            file = some (record { name = name; position = p; appended = [] });
            earlier = close_file m.file m.earlier;
          },
          rw opened refl,
          can.stays d name ready,
        )

    pub rotate_returns :
        (d : Disk) (m : FileManager) (date : Bytes) (limit : ℕ)
        → usable d
        → (d' : Disk) × (m' : FileManager) × (rotate_file_if_needed open_at log_directory d m date
              limit
            ≡ some (d', m'))
          × usable d'
    unfolding rotate_file_if_needed
    rotate_returns d m date limit ready = elim (Bool-cases (bytes_eq date m.current_date)) [
      | inr other_day ↦
          rw other_day
            (open_new_file_returns d (record m { current_date = date; current_index = 0 }) ready)
      | inl same_day ↦ elim (Bool-cases (ltb limit (tellp m.file))) [
        | inl full ↦
            rw (same_day, full)
              (open_new_file_returns d (record m { current_index = add_size m.current_index 1 })
                ready)
        | inr room ↦ (d, m, rw (same_day, room) refl, ready)
      ]
    ]

-- ===== src/Logging/Files.antt =====
-- rotate_log_file of src/logging.c, over the files of a directory.
use bacnet_event_server.Base.{
  ℕ, zero, suc, Bool, [], ◌++◌, Option, none, some, Bytes, codes, copy_string, str_eq,
  if◌then◌else◌, ◌==◌, is_some,
}
use bacnet_event_server.Base.Decimal.{print_nat}

-- The contents by path; `none` where there is no file.
abbrev pub Files : Type 0
Files = Bytes → Option Bytes

unfoldable pub write_file : Files → Bytes → Option Bytes → Files
write_file files path content other = if str_eq path other then content else files other

-- rename: nothing happens if there is no such file, or under its own name.
unfoldable pub rename : Files → Bytes → Bytes → Files
unfolding write_file
rename files old new =
    if is_some (files old)
    then if str_eq old new then files else write_file (write_file files new (files old)) old none
    else files

unfoldable pub unlink : Files → Bytes → Files
unfolding write_file
unlink files path = write_file files path none

-- fopen with "a" creates a missing file.
abbrev pub or_empty : Option Bytes → Option Bytes
or_empty none = some []
or_empty (some content) = some content

unfoldable pub open_append : Files → Bytes → Files
unfolding write_file
open_append files path = write_file files path (or_empty (files path))

-- The path of a backup in a buffer of 512 bytes; number 0 is the log file.
unfoldable pub backup_path : Bytes → ℕ → Bytes
backup_path path i =
    if i == 0 then copy_string 512 path else copy_string 512 (path ++ (codes "." ++ print_nat i))

-- The loop from the oldest backup that is kept down to the log file.
unfoldable pub rotate_loop : Bytes → ℕ → Files → Files
unfolding rename backup_path
rotate_loop path zero files = files
rotate_loop path (suc i) files =
    rotate_loop path i (rename files (backup_path path i) (backup_path path (suc i)))

-- rotate_log_file with at least 0 backups; `opened` says whether the log file can be opened again.
unfoldable pub rotate_files : Bool → Bytes → ℕ → Files → Files
unfolding rotate_loop unlink open_append
rotate_files opened path max files =
    let rotated = unlink (rotate_loop path max files) (backup_path path (suc max)) in
    if opened then open_append rotated path else rotated

-- ===== src/Logging/Sink/Rotating.antt =====
-- The state of src/logging.c, what leaves the program, and the rotation of the log file.
use bacnet_event_server.Base.{
  ℕ, ◌+◌, Bool, ◌&&◌, List, ◌∷◌, ◌++◌, Option, none, some, Bytes, length, take, if◌then◌else◌, ltb,
  leb,
}
use bacnet_event_server.Logging.Levels.{Level}
use bacnet_event_server.Logging.Files.{Files, write_file, rotate_files}
use bacnet_event_server.Logging.Line.{LogConfig, or_blank}

-- What leaves the program: the streams, the calls of syslog, and the calls of the callback.
pub data Output : Type 0 where
  stdout stderr : Bytes → Output
  openlog : Bytes → ℕ → Output
  syslog : ℕ → Bytes → Output
  closelog : Output
  callback : Level → Option Bytes → Bytes → Bytes → ℕ → Output

-- log_state, with the files of the directory and what has left, the latest first.
pub record LogState : Type 0 where
  pub config : LogConfig
  pub is_open : Bool
  pub initialized : Bool
  pub current_file_size : ℕ
  pub files : Files
  pub outputs : List Output

-- The environment of a call: the two times, whether fopen and stat succeed, and how many bytes fwrite takes at most.
pub record Env : Type 0 where
  pub local_time : Bytes
  pub utc_time : Bytes
  pub opens : Bool
  pub stats : Bool
  pub room : ℕ

abbrev pub emit : Output → LogState → LogState
emit o s = record s { outputs = o ∷ s.outputs }

abbrev pub emit_if : Bool → Output → LogState → LogState
emit_if wanted o s = if wanted then emit o s else s

abbrev pub content_at : Files → Bytes → Bytes
content_at files path = or_blank (files path)

-- The open file is the one under `file_path`.
abbrev pub append_file : Files → Option Bytes → Bytes → Files
append_file files none line = files
append_file files (some path) line = write_file files path (some (content_at files path ++ line))

-- rotate_log_file.
unfoldable pub rotate_at : Env → Option Bytes → LogState → LogState
unfolding rotate_files
rotate_at env none s = s
rotate_at env (some path) s =
    if s.is_open
    then record s {
      files = rotate_files env.opens path s.config.max_backup_files s.files;
      is_open = env.opens;
      current_file_size = 0;
    }
    else s

unfoldable pub rotate_log_file : Env → LogState → LogState
unfolding rotate_at
rotate_log_file env s = rotate_at env s.config.file_path s

-- fwrite and the counter.
unfoldable pub write_line : Env → Bytes → LogState → LogState
unfolding write_file
write_line env line s = record s {
  files = append_file s.files s.config.file_path (take env.room line);
  current_file_size = s.current_file_size + length (take env.room line);
}

-- The check for a rotation after a write.
unfoldable pub rotate_if_full : Env → LogState → LogState
unfolding rotate_log_file
rotate_if_full env s =
    if ltb 0 s.config.max_file_size && leb s.config.max_file_size s.current_file_size
    then rotate_log_file env s
    else s

-- ===== src/Logging/Sink.antt =====
-- The state of src/logging.c and its operations: start, writing, rotation and shutdown.
pub mod Rotating
unfoldable pub use Rotating.*
use bacnet_event_server.Base.{
  ℕ, ◌+◌, Bool, true, false, ◌&&◌, List, [], ◌∷◌, ◌++◌, Option, none, some, Bytes, codes,
  copy_string, length, take, if◌then◌else◌, ◌==◌, ltb, leb,
}
use bacnet_event_server.Base.Scan.{◌>>=◌}
use bacnet_event_server.Logging.Levels.{
  Level, trace, debug, info, warn, error, fatal, off, level_code, level_name, log_level_to_string,
}
use bacnet_event_server.Logging.Escape.{escape_json_string, strip_ansi}
use bacnet_event_server.Logging.Files.{Files, write_file, open_append, rotate_files}
use bacnet_event_server.Logging.Line.{
  text, json, to_stdout, to_stderr, to_file, to_syslog, to_callback, has_output, LogConfig, LogCall,
  default_config, or_blank, json_field, format_line,
}

unfoldable pub clean_line : LogConfig → Bytes → Bytes
unfolding strip_ansi
clean_line config line = elim config.format [
  | text ↦ if config.colorize then strip_ansi line else line
  | json ↦ line
]

unfoldable pub writes_file : LogState → Bool
writes_file s = has_output s.config.outputs to_file && s.is_open

unfoldable pub file_output : Env → Bytes → LogState → LogState
unfolding write_line rotate_if_full clean_line writes_file
file_output env line s =
    if writes_file s then rotate_if_full env (write_line env (clean_line s.config line) s) else s

-- The priorities of syslog.
unfoldable pub syslog_level : Level → ℕ
syslog_level trace = 7
syslog_level debug = 7
syslog_level info = 6
syslog_level warn = 4
syslog_level error = 3
syslog_level fatal = 2
syslog_level off = 6

unfoldable pub syslog_output : LogCall → Bytes → LogState → LogState
unfolding syslog_level
syslog_output call message s =
    emit_if (has_output s.config.outputs to_syslog)
      (syslog (syslog_level call.level)
        (codes "[" ++ or_blank call.component ++ codes "] " ++ message))
      s

unfoldable pub callback_output : LogCall → Bytes → LogState → LogState
callback_output call message s =
    emit_if (has_output s.config.outputs to_callback && s.config.has_callback)
      (callback call.level call.component message call.file call.line) s

-- The part of log_writev after the line is formatted.
unfoldable pub deliver : Env → LogCall → Bytes → Bytes → LogState → LogState
unfolding file_output syslog_output callback_output
deliver env call message line s = callback_output call message (
    syslog_output call message (
      file_output env line (
        emit_if (has_output s.config.outputs to_stderr) (stderr line)
          (emit_if (has_output s.config.outputs to_stdout) (stdout line) s))))

unfoldable pub is_filtered : Level → LogState → Bool
is_filtered level s = ltb (level_code level) (level_code s.config.level)

-- log_writev; `none` where the line would be written outside its buffer.
unfoldable pub log_writev : Env → LogCall → LogState → Option LogState
unfolding deliver format_line is_filtered
log_writev env call s =
    let message = copy_string 2048 call.content in
    if is_filtered call.level s then some s else do
      line ← format_line s.config env.local_time env.utc_time call message
      some (deliver env call message line s)

-- The optional member of log_structured; NULL and the empty text leave it out.
unfoldable pub data_part : Bytes → Bytes
data_part [] = []
data_part (c ∷ s) = b',' ∷ 34 ∷ codes "data" ++ 34 ∷ b':' ∷ c ∷ s

-- log_structured.
unfoldable pub structured_line : Bytes → Level → Option Bytes → Bytes → Option Bytes → Bytes
unfolding json_field escape_json_string data_part
structured_line time level component message data_text = copy_string 4096 (
    codes "{"
    ++ json_field "timestamp" time
    ++ json_field "level" (level_name level)
    ++ json_field "component" (or_blank component)
    ++ 34 ∷ codes "message"
    ++ 34 ∷ b':' ∷ 34 ∷ escape_json_string message 2048
    ++ 34 ∷ []
    ++ data_part (or_blank data_text)
    ++ codes "}"
    ++ 10 ∷ [])

unfoldable pub log_structured :
    Env → Level → Option Bytes → Bytes → Option Bytes → LogState → LogState
unfolding structured_line write_line writes_file is_filtered
log_structured env level component message data_text s =
    let line = structured_line env.utc_time level component message data_text in
    let shown = emit_if (has_output s.config.outputs to_stdout) (stdout line) s in
    if is_filtered level s
    then s
    else if writes_file shown
    then write_line env line shown
    else shown

-- log_set_level and log_get_level.
unfoldable pub log_set_level : Level → LogState → LogState
log_set_level level s = record s { config = record s.config { level = level } }

unfoldable pub log_get_level : LogState → Level
log_get_level s = s.config.level

-- The opening of the log file and the first counter.
unfoldable pub start_file : Env → Bytes → LogState → LogState
unfolding open_append
start_file env path s =
    let opened = open_append s.files path in
    record s {
      is_open = true;
      files = opened;
      current_file_size =
          if env.stats then length (content_at opened path) else s.current_file_size;
    }

-- What log_init says of the level.
abbrev pub init_call : LogConfig → ℕ → LogCall
init_call config line = record {
  level = info;
  component = some (codes "LOG");
  file = codes "src/logging.c";
  line = line;
  content =
      codes "Logging system initialized (level=" ++ log_level_to_string config.level ++ codes ")";
}

abbrev pub or_ident : Option Bytes → Bytes
or_ident none = codes "bacnet-event-server"
or_ident (some ident) = ident

-- LOG_LOCAL0 stands for no facility.
unfoldable pub open_syslog : LogState → LogState
open_syslog s =
    emit_if (has_output s.config.outputs to_syslog)
      (openlog (or_ident s.config.syslog_ident)
        (if s.config.syslog_facility == 0 then 128 else s.config.syslog_facility))
      s

-- The rest of log_init: syslog, the flag and the message of line 221.
unfoldable pub complete_init : Env → LogState → Option LogState
unfolding log_writev open_syslog
complete_init env s =
    log_writev env (init_call s.config 221) (record (open_syslog s) { initialized = true })

abbrev pub open_failed : Bytes → LogState → LogState
open_failed path s =
    emit (stderr (codes "[LOG] Failed to open log file: " ++ path ++ 10 ∷ []))
      (record s { is_open = false })

abbrev pub with_status : Bool → Option LogState → Option (Bool × LogState)
with_status status none = none
with_status status (some s) = some (status, s)

-- The part of log_init after the configuration is copied.
unfoldable pub init_at : Env → Option Bytes → LogState → Option (Bool × LogState)
unfolding start_file complete_init
init_at env none s = with_status true (complete_init env s)
init_at env (some path) s =
    if has_output s.config.outputs to_file
    then if env.opens
      then with_status true (complete_init env (start_file env path s))
      else some (false, open_failed path s)
    else with_status true (complete_init env s)

abbrev pub or_default : Option LogConfig → LogConfig
or_default none = default_config
or_default (some config) = config

-- log_init: the status is `true` for 0 and `false` for -1.
unfoldable pub log_init : Env → Option LogConfig → LogState → Option (Bool × LogState)
unfolding init_at
log_init env given s =
    let config = or_default given in
    if s.initialized
    then some (true, s)
    else init_at env config.file_path (record s { config = config })

unfoldable pub log_shutdown : LogState → LogState
log_shutdown s =
    if s.initialized
    then emit_if (has_output s.config.outputs to_syslog) closelog
        (record s { is_open = false; initialized = false })
    else s

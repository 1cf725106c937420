-- ===== src/Logging/Line.antt =====
-- The configuration of include/logging.h and the line that log_writev of src/logging.c formats.
use bacnet_event_server.Base.{
  ℕ, zero, suc, String, ◌-◌, ◌*◌, ◌/◌, ◌%◌, Bool, true, false, ◌&&◌, ◌||◌, [], ◌∷◌, ◌++◌, Option,
  none, some, Bytes, codes, copy_string, length, if◌then◌else◌, ◌==◌,
}
use bacnet_event_server.Base.Buffer.{Cursor, start, print_at}
use bacnet_event_server.Base.Decimal.{print_nat}
use bacnet_event_server.Logging.Levels.{
  Level, trace, debug, info, warn, error, fatal, off, level_name,
}
use bacnet_event_server.Logging.Escape.{escape_json_string, get_filename}
use bacnet_event_server.Base.Scan.{◌>>=◌}

pub data Format : Type 0 where
  text json : Format

-- The bits of `outputs`.
pub data Target : Type 0 where
  to_stdout to_stderr to_file to_syslog to_callback : Target

abbrev pub target_bit : Target → ℕ
target_bit to_stdout = 1
target_bit to_stderr = 2
target_bit to_file = 4
target_bit to_syslog = 8
target_bit to_callback = 16

-- `outputs & bit`, for a mask that is not negative.
abbrev pub has_output : ℕ → Target → Bool
has_output outputs target = (outputs / target_bit target) % 2 == 1

pub record LogConfig : Type 0 where
  pub level : Level
  pub outputs : ℕ
  pub format : Format
  pub file_path : Option Bytes
  pub max_file_size : ℕ
  pub max_backup_files : ℕ
  pub syslog_ident : Option Bytes
  pub syslog_facility : ℕ
  pub has_callback : Bool
  pub include_timestamp : Bool
  pub include_level : Bool
  pub include_component : Bool
  pub include_location : Bool
  pub colorize : Bool

-- log_get_default_config.
abbrev pub default_config : LogConfig
default_config = record {
  level = info;
  outputs = target_bit to_stdout;
  format = text;
  file_path = none;
  max_file_size = 10 * 1024 * 1024;
  max_backup_files = 5;
  syslog_ident = none;
  syslog_facility = 0;
  has_callback = false;
  include_timestamp = true;
  include_level = true;
  include_component = true;
  include_location = false;
  colorize = true;
}

-- The arguments of log_writev; `content` is what `fmt` and its arguments format to.
pub record LogCall : Type 0 where
  pub level : Level
  pub component : Option Bytes
  pub file : Bytes
  pub line : ℕ
  pub content : Bytes

-- level_colors and ANSI_RESET.
abbrev pub ansi : String → Bytes
ansi s = 27 ∷ codes s

unfoldable pub level_color : Level → Bytes
level_color trace = ansi "[36m"
level_color debug = ansi "[34m"
level_color info = ansi "[32m"
level_color warn = ansi "[33m"
level_color error = ansi "[31m"
level_color fatal = ansi "[1m" ++ ansi "[31m"
level_color off = []

-- `%-5s`.
abbrev pub spaces : ℕ → Bytes
spaces zero = []
spaces (suc n) = 32 ∷ spaces n

unfoldable pub pad_right : ℕ → Bytes → Bytes
pad_right width s = s ++ spaces (width - length s)

-- NULL is printed as nothing.
abbrev pub or_blank : Option Bytes → Bytes
or_blank none = []
or_blank (some s) = s

unfoldable pub print_if : Bool → Bytes → Cursor → Option Cursor
unfolding print_at
print_if wanted piece c = if wanted then print_at 4096 piece c else some c

unfoldable pub level_piece : LogConfig → Level → Bytes
unfolding level_color pad_right
level_piece config level =
    if config.colorize
      && (has_output config.outputs to_stdout || has_output config.outputs to_stderr)
    then level_color level ++ pad_right 5 (level_name level) ++ ansi "[0m" ++ codes " "
    else pad_right 5 (level_name level) ++ codes " "

abbrev pub has_component : Option Bytes → Bool
has_component none = false
has_component (some s) = true

unfoldable pub component_piece : Option Bytes → Bytes
component_piece component = codes "[" ++ or_blank component ++ codes "] "

unfoldable pub location_piece : LogCall → Bytes
unfolding get_filename
location_piece call =
    codes "(" ++ get_filename call.file ++ codes ":" ++ print_nat call.line ++ codes ") "

-- The text format; `none` where a piece would be written outside the buffer.
unfoldable pub text_line : LogConfig → Bytes → LogCall → Bytes → Option Bytes
unfolding print_if print_at level_piece component_piece location_piece
text_line config time call message = do
  stamped ← print_if config.include_timestamp (time ++ codes " ") start
  levelled ← print_if config.include_level (level_piece config call.level) stamped
  named ←
      print_if (config.include_component && has_component call.component)
        (component_piece call.component) levelled
  placed ← print_if config.include_location (location_piece call) named
  done ← print_at 4096 (message ++ 10 ∷ []) placed
  some done.buffer

-- `"key":"value",` in the JSON formats.
unfoldable pub json_field : String → Bytes → Bytes
json_field name value = 34 ∷ codes name ++ 34 ∷ b':' ∷ 34 ∷ value ++ 34 ∷ codes ","

-- The JSON format, with the escaped message in a buffer of 2048 bytes.
unfoldable pub json_line : Bytes → LogCall → Bytes → Bytes
unfolding json_field escape_json_string get_filename
json_line time call message = copy_string 4096 (
    codes "{"
    ++ json_field "timestamp" time
    ++ json_field "level" (level_name call.level)
    ++ json_field "component" (or_blank call.component)
    ++ json_field "file" (get_filename call.file)
    ++ 34 ∷ codes "line"
    ++ 34 ∷ b':' ∷ print_nat call.line
    ++ b',' ∷ 34 ∷ codes "message"
    ++ 34 ∷ b':' ∷ 34 ∷ escape_json_string message 2048
    ++ 34 ∷ codes "}"
    ++ 10 ∷ [])

-- The two formats, with the local time and the time in UTC.
unfoldable pub format_line : LogConfig → Bytes → Bytes → LogCall → Bytes → Option Bytes
unfolding text_line json_line
format_line config local_time utc_time call message = elim config.format [
  | text ↦ text_line config local_time call message
  | json ↦ some (json_line utc_time call message)
]

-- ===== src/Logging/Checks.antt =====
-- The theorems on the log file at a concrete configuration.
use bacnet_event_server.Base.{
  zero, suc, ◌<◌, ◌≡◌, refl, Bool, true, false, [], ◌∷◌, ◌++◌, List, Option, none, some, Bytes,
  codes, length, arith, str_eq,
}
use bacnet_event_server.Base.Decimal.{print_nat}
use bacnet_event_server.Logging.Levels.{warn, debug, log_level_to_string}
use bacnet_event_server.Logging.Files.{Files, write_file, backup_path, rotate_files}
use bacnet_event_server.Logging.Rotation.{AreWhole}
use bacnet_event_server.Logging.Rotated.{rotate_files-slots, rotated_slot}
use bacnet_event_server.Logging.Line.{
  LogConfig, LogCall, default_config, text_line, target_bit, to_file,
}
use bacnet_event_server.Logging.Cut.{finish, prefix_text, text_line-finish}
use bacnet_event_server.Logging.Sink.{LogState, Env, content_at, log_init, log_writev}
use bacnet_event_server.Logging.Run.{LogOp, writev, set_level, run}
use bacnet_event_server.Logging.Counted.{IsSound}
use bacnet_event_server.Logging.Session.{session-IsSound}
use bacnet_event_server.Logging.Limit.{log_writev-limit}

abbrev path : Bytes
path = codes "a.log"

path-AreWhole : AreWhole path 3
unfolding print_nat
path-AreWhole zero h = omega arith
path-AreWhole (suc zero) h = omega arith
path-AreWhole (suc (suc zero)) h = omega arith
path-AreWhole (suc (suc (suc zero))) h = omega arith
path-AreWhole (suc (suc (suc (suc i)))) h = absurd (omega arith)

abbrev no_files : Files
no_files other = none

abbrev two_files : Files
two_files =
    write_file (write_file no_files (codes "a.log") (some (codes "new"))) (codes "a.log.1")
      (some (codes "old"))

abbrev env : Env
env = record {
  local_time = codes "12:00";
  utc_time = codes "11:00Z";
  opens = true;
  stats = true;
  room = 4096;
}

abbrev config : LogConfig
config = record default_config {
  outputs = target_bit to_file;
  file_path = some path;
  max_file_size = 20;
  max_backup_files = 2;
  colorize = false;
}

abbrev unused : LogState
unused = record {
  config = default_config;
  is_open = false;
  initialized = false;
  current_file_size = 0;
  files = no_files;
  outputs = [];
}

abbrev call : LogCall
call = record {
  level = warn;
  component = some (codes "MAIN");
  file = codes "main.c";
  line = 7;
  content = codes "hot";
}

abbrev state_of : Option (Bool × LogState) → LogState
state_of none = unused
state_of (some (status, s)) = s

abbrev result_of : Option LogState → LogState
result_of none = unused
result_of (some s) = s

rotate_files-slots_example :
    rotate_files true path 2 two_files (codes "a.log.1") ≡ some (codes "new")
unfolding write_file backup_path rotate_files rotated_slot print_nat str_eq
rotate_files-slots_example =
    rotate_files-slots path 2 two_files true 1 path-AreWhole (omega arith) (omega arith)

text_line-finish_example :
    text_line config (codes "12:00") call (codes "hot")
    ≡ some (codes "12:00 WARN  [MAIN] hot" ++ 10 ∷ [])
unfolding finish prefix_text
text_line-finish_example = text_line-finish config (codes "12:00") call (codes "hot")

abbrev started : LogState
unfolding log_init
started = state_of (log_init env (some config) unused)

abbrev written : LogState
unfolding log_writev
written = result_of (log_writev env call started)

abbrev ops : List LogOp
ops = writev env call ∷ set_level debug ∷ []

session-IsSound_example : IsSound path (result_of (run ops started))
unfolding log_init run str_eq log_level_to_string
session-IsSound_example =
    session-IsSound env (some config) path unused started (result_of (run ops started)) true ops
      refl refl refl refl (omega arith) path-AreWhole refl refl

log_writev-limit_example : length (content_at written.files path) < 20
unfolding log_init log_writev str_eq log_level_to_string run
log_writev-limit_example =
    log_writev-limit env call path started written
      (session-IsSound env (some config) path unused started started true [] refl refl refl refl
        (omega arith) path-AreWhole refl refl)
      (omega arith) refl refl refl

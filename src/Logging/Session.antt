-- ===== src/Logging/Session.antt =====
-- log_init of src/logging.c followed by writing.
use bacnet_event_server.Base.{
  suc, ◌<◌, ◌≡◌, refl, sym, ap, subst, Bool, true, false, List, Option, none, some, Bytes,
  if◌then◌else◌, ◌==◌,
}
use mathlib.Core.Option.{some-injective, none-ne-some}
use bacnet_event_server.Logging.Rotation.{AreWhole}
use bacnet_event_server.Logging.Line.{LogConfig, has_output, to_file, to_syslog}
use bacnet_event_server.Logging.Sink.{
  LogState, Env, openlog, or_ident, content_at, start_file, open_syslog, complete_init, open_failed,
  with_status, init_at, init_call, or_default, log_init,
}
use bacnet_event_server.Logging.Run.{LogOp, run}
use bacnet_event_server.Logging.Counted.{Counts, IsSound, emit_if-IsSound}
use bacnet_event_server.Logging.Writing.{log_writev-IsSound, run-IsSound}

open_syslog-IsSound : (path : Bytes) (s : LogState) → IsSound path s → IsSound path (open_syslog s)
unfolding open_syslog
open_syslog-IsSound path s sound =
    emit_if-IsSound (has_output s.config.outputs to_syslog)
      (openlog (or_ident s.config.syslog_ident)
        (if s.config.syslog_facility == 0 then 128 else s.config.syslog_facility))
      path s sound

complete_init-IsSound :
    (env : Env) (path : Bytes) (s t : LogState)
    → IsSound path s
    → complete_init env s ≡ some t
    → IsSound path t
unfolding complete_init IsSound
complete_init-IsSound env path s t sound e =
    log_writev-IsSound env (init_call s.config 221) path
      (record (open_syslog s) { initialized = true }) t (open_syslog-IsSound path s sound) e

start_file-IsSound :
    (env : Env) (path : Bytes) (s : LogState)
    → env.stats ≡ true
    → IsSound path s
    → IsSound path (start_file env path s)
unfolding start_file IsSound Counts
start_file-IsSound env path s stats (named, kept, whole, counts) =
    (named, kept, whole, rw stats refl)

of_status :
    (result : Option LogState) (status : Bool) (t : LogState)
    → with_status true result ≡ some (status, t)
    → result ≡ some t
of_status none status t e = absurd (none-ne-some (status, t) e)
of_status (some u) status t e = ap (λ p. some p.1) (some-injective (true, u) (status, t) e)

open_failed-IsSound :
    (path : Bytes) (s : LogState) → IsSound path s → IsSound path (open_failed path s)
unfolding IsSound Counts
open_failed-IsSound path s (named, kept, whole, counts) = (named, kept, whole, tt)

init_at-IsSound :
    (env : Env) (path : Bytes) (s t : LogState) (status : Bool)
    → env.stats ≡ true
    → IsSound path s
    → init_at env (some path) s ≡ some (status, t)
    → IsSound path t
unfolding init_at
init_at-IsSound env path s t status stats sound e =
    decided (has_output s.config.outputs to_file) env.opens e
  where
    decided :
        (wanted opens : Bool)
        → (if wanted
            then if opens
              then with_status true (complete_init env (start_file env path s))
              else some (false, open_failed path s)
            else with_status true (complete_init env s))
          ≡ some (status, t)
        → IsSound path t
    decided true true h =
        complete_init-IsSound env path (start_file env path s) t
          (start_file-IsSound env path s stats sound)
          (of_status (complete_init env (start_file env path s)) status t h)
    decided true false h =
        subst (IsSound path)
          (ap (λ p. p.1) (some-injective (false, open_failed path s) (status, t) h))
          (open_failed-IsSound path s sound)
    decided false opens h =
        complete_init-IsSound env path s t sound (of_status (complete_init env s) status t h)

-- log_init on a state that is not initialized and has no open file.
log_init-IsSound :
    (env : Env) (given : Option LogConfig) (path : Bytes) (s t : LogState) (status : Bool)
    → s.initialized ≡ false
    → s.is_open ≡ false
    → env.stats ≡ true
    → (or_default given).file_path ≡ some path
    → 0 < (or_default given).max_backup_files
    → AreWhole path (suc (or_default given).max_backup_files)
    → log_init env given s ≡ some (status, t)
    → IsSound path t
unfolding log_init IsSound Counts
log_init-IsSound env given path s t status fresh closed stats named kept whole e =
    let config = or_default given in
    let copied = record s { config = config } in
    let counts =
      subst (λ o. Counts o (content_at s.files path) s.current_file_size) (sym closed) tt in
    let begun =
      subst
        (λ b.
          (if b then some (true, s) else init_at env config.file_path copied) ≡ some (status, t))
        fresh e in
    init_at-IsSound env path copied t status stats (named, kept, whole, counts)
      (subst (λ p. init_at env p copied ≡ some (status, t)) named begun)

-- log_init on a state that is not initialized and has no open log file, with a configuration that keeps at least one backup and gives a log file whose path and backups' paths are whole, followed by any sequence of log_writev, log_structured and log_set_level: if no line is printed outside its buffer and stat succeeds at the start, then the counter of an open log file is its length, whatever fopen and fwrite do, rotations included.
pub session-IsSound :
    (env : Env) (given : Option LogConfig) (path : Bytes) (s t u : LogState) (status : Bool)
    (ops : List LogOp)
    → s.initialized ≡ false
    → s.is_open ≡ false
    → env.stats ≡ true
    → (or_default given).file_path ≡ some path
    → 0 < (or_default given).max_backup_files
    → AreWhole path (suc (or_default given).max_backup_files)
    → log_init env given s ≡ some (status, t)
    → run ops t ≡ some u
    → IsSound path u
session-IsSound env given path s t u status ops fresh closed stats named kept whole e runs =
    run-IsSound ops path t u
      (log_init-IsSound env given path s t status fresh closed stats named kept whole e) runs

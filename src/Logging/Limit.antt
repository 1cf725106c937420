-- ===== src/Logging/Limit.antt =====
-- The size of the log file of src/logging.c after a write.
use bacnet_event_server.Base.{
  suc, ◌<◌, ◌≡◌, refl, sym, ap, subst, ◌∙◌, Bool, true, false, some, Bytes, copy_string, length,
  leb, arith, Bool-cases, inl, inr,
}
use bacnet_event_server.Logging.Rotation.{AreWhole}
use bacnet_event_server.Logging.Line.{LogCall, has_output, to_stdout, to_stderr}
use bacnet_event_server.Logging.Sink.{
  LogState, Env, Output, stdout, stderr, emit_if, content_at, rotate_at, rotate_log_file,
  write_line, rotate_if_full, clean_line, writes_file, file_output, syslog_output, callback_output,
  deliver, is_filtered, log_writev,
}
use bacnet_event_server.Logging.Counted.{
  Counts, IsSound, write_line-IsSound, emit_if-IsSound, rotated_empty,
}
use bacnet_event_server.Logging.Writing.{log_writev-cases}

emit_if-files : (wanted : Bool) (o : Output) (s : LogState) → (emit_if wanted o s).files ≡ s.files
emit_if-files true o s = refl
emit_if-files false o s = refl

emit_if-config :
    (wanted : Bool) (o : Output) (s : LogState) → (emit_if wanted o s).config ≡ s.config
emit_if-config true o s = refl
emit_if-config false o s = refl

emit_if-writes_file :
    (wanted : Bool) (o : Output) (s : LogState) → writes_file (emit_if wanted o s) ≡ writes_file s
unfolding writes_file
emit_if-writes_file true o s = refl
emit_if-writes_file false o s = refl

rotated_length :
    (env : Env) (path : Bytes) (s : LogState)
    → s.config.file_path ≡ some path
    → 0 < s.config.max_backup_files
    → AreWhole path (suc s.config.max_backup_files)
    → s.is_open ≡ true
    → length (content_at (rotate_log_file env s).files path) ≡ 0
unfolding rotate_log_file rotate_at
rotated_length env path s named kept whole opened =
    subst (λ p. length (content_at (rotate_at env p s).files path) ≡ 0) (sym named)
      (rw opened
        (ap length (rotated_empty env.opens path s.config.max_backup_files s.files whole kept)))

open_length :
    (s : LogState) (path : Bytes)
    → Counts s.is_open (content_at s.files path) s.current_file_size
    → s.is_open ≡ true
    → length (content_at s.files path) ≡ s.current_file_size
unfolding Counts
open_length s path counts opened =
    subst (λ o. Counts o (content_at s.files path) s.current_file_size) opened counts

-- The size after the check for a rotation.
rotate_if_full-limit :
    (env : Env) (path : Bytes) (s : LogState)
    → IsSound path s
    → 0 < s.config.max_file_size
    → s.is_open ≡ true
    → length (content_at (rotate_if_full env s).files path) < s.config.max_file_size
unfolding rotate_if_full rotate_log_file rotate_at IsSound Counts
rotate_if_full-limit env path s (named, kept, whole, counts) limited opened =
    elim (Bool-cases (leb s.config.max_file_size s.current_file_size)) [
      | inl full ↦
          ground (arith, full, limited, opened, rotated_length env path s named kept whole opened)
      | inr room ↦ ground (arith, room, limited, open_length s path counts opened)
    ]

file_output-limit :
    (env : Env) (line path : Bytes) (s : LogState)
    → IsSound path s
    → 0 < s.config.max_file_size
    → writes_file s ≡ true
    → length (content_at (file_output env line s).files path) < s.config.max_file_size
unfolding file_output writes_file write_line
file_output-limit env line path s sound limited writes =
    let clean = clean_line s.config line in
    rw writes (
      rotate_if_full-limit env path (write_line env clean s)
        (write_line-IsSound env clean path s sound) limited (is_open_of s writes))
  where
    is_open_of : (s : LogState) → writes_file s ≡ true → s.is_open ≡ true
    is_open_of s h = ground arith

-- The state in which log_writev of a line reaches the file.
shown : Bytes → LogState → LogState
shown line s =
    emit_if (has_output s.config.outputs to_stderr) (stderr line)
      (emit_if (has_output s.config.outputs to_stdout) (stdout line) s)

deliver-files :
    (env : Env) (call : LogCall) (message line : Bytes) (s : LogState)
    → (deliver env call message line s).files ≡ (file_output env line (shown line s)).files
unfolding deliver callback_output syslog_output shown
deliver-files env call message line s =
    emit_if-files _ _ (syslog_output call message (file_output env line (shown line s)))
    ∙ emit_if-files _ _ (file_output env line (shown line s))

shown-config : (line : Bytes) (s : LogState) → (shown line s).config ≡ s.config
unfolding shown
shown-config line s =
    emit_if-config (has_output s.config.outputs to_stderr) (stderr line)
      (emit_if (has_output s.config.outputs to_stdout) (stdout line) s)
    ∙ emit_if-config (has_output s.config.outputs to_stdout) (stdout line) s

shown-writes_file : (line : Bytes) (s : LogState) → writes_file (shown line s) ≡ writes_file s
unfolding shown
shown-writes_file line s =
    emit_if-writes_file (has_output s.config.outputs to_stderr) (stderr line)
      (emit_if (has_output s.config.outputs to_stdout) (stdout line) s)
    ∙ emit_if-writes_file (has_output s.config.outputs to_stdout) (stdout line) s

shown-IsSound : (line path : Bytes) (s : LogState) → IsSound path s → IsSound path (shown line s)
unfolding shown
shown-IsSound line path s sound =
    emit_if-IsSound (has_output s.config.outputs to_stderr) (stderr line) path
      (emit_if (has_output s.config.outputs to_stdout) (stdout line) s)
      (emit_if-IsSound (has_output s.config.outputs to_stdout) (stdout line) path s sound)

-- From a state in which at least one backup is kept, the paths of the log file and its backups are whole and the counter is right, with the file output on and the file open, a limit on its size and a level that is not filtered: after a log_writev that stays in its buffer the log file is shorter than the limit, since it has been rotated if the line reached it, also if it could not be opened again.
pub log_writev-limit :
    (env : Env) (call : LogCall) (path : Bytes) (s t : LogState)
    → IsSound path s
    → 0 < s.config.max_file_size
    → writes_file s ≡ true
    → is_filtered call.level s ≡ false
    → log_writev env call s ≡ some t
    → length (content_at t.files path) < s.config.max_file_size
log_writev-limit env call path s t sound limited writes kept e =
    elim (log_writev-cases env call s t e) [
      | inl (filtered, same) ↦ absurd (ground (filtered, kept, arith))
      | inr (line, done) ↦
          let size = ap (λ c. c.max_file_size) (shown-config line s) in
          let below =
            file_output-limit env line path (shown line s) (shown-IsSound line path s sound)
              (subst (λ n. 0 < n) (sym size) limited) (shown-writes_file line s ∙ writes) in
          let same =
            ap (λ u. u.files) done
            ∙ deliver-files env call (copy_string 2048 call.content) line s in
          rw same (
            subst (λ n. length (content_at (file_output env line (shown line s)).files path) < n)
              size below)
    ]

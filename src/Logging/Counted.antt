-- ===== src/Logging/Counted.antt =====
-- The counter of src/logging.c and the length of the open log file.
use bacnet_event_server.Base.{
  ℕ, suc, ◌+◌, ◌<◌, ◌≡◌, refl, sym, ap, subst, ◌∙◌, Bool, true, false, ◌&&◌, [], ◌++◌, Option, some,
  Bytes, codes, length, length-append, take, str_eq_refl, if◌then◌else◌, ltb, leb, arith,
  Bool-cases, inl, inr,
}
use bacnet_event_server.Logging.Files.{Files, write_file, backup_path, rotate_files}
use bacnet_event_server.Logging.Rotation.{AreWhole, backup_zero}
use bacnet_event_server.Logging.Rotated.{rotate_files-slots, rotated_slot}
use bacnet_event_server.Logging.Line.{
  LogCall, or_blank, has_output, to_stdout, to_stderr, to_syslog, to_callback,
}
use bacnet_event_server.Logging.Sink.{
  LogState, Env, Output, stdout, stderr, syslog, callback, syslog_level, emit_if, content_at,
  rotate_at, rotate_log_file, write_line, rotate_if_full, clean_line, writes_file, file_output,
  syslog_output, callback_output, deliver,
}

-- An open file has as many bytes as the counter says.
unfoldable pub Counts : Bool → Bytes → ℕ → Type 0
Counts true content size = length content ≡ size
Counts false content size = Unit

-- At least one backup is kept, the paths of the backups are whole, and the counter is right.
unfoldable pub IsSound : Bytes → LogState → Type 0
unfolding Counts
IsSound path s =
    (s.config.file_path ≡ some path)
    × (0 < s.config.max_backup_files)
    × AreWhole path (suc s.config.max_backup_files)
    × Counts s.is_open (content_at s.files path) s.current_file_size

pub emit_if-IsSound :
    (wanted : Bool) (o : Output) (path : Bytes) (s : LogState)
    → IsSound path s
    → IsSound path (emit_if wanted o s)
unfolding IsSound
emit_if-IsSound true o path s h = h
emit_if-IsSound false o path s h = h

append-Counts :
    (opened : Bool) (content more : Bytes) (size : ℕ)
    → Counts opened content size
    → Counts opened (content ++ more) (size + length more)
unfolding Counts
append-Counts true content more size h = ground (arith, length-append content more)
append-Counts false content more size h = tt

pub write_line-IsSound :
    (env : Env) (line path : Bytes) (s : LogState)
    → IsSound path s
    → IsSound path (write_line env line s)
unfolding IsSound write_line write_file
write_line-IsSound env line path s (named, kept, whole, counts) = (
  named,
  kept,
  whole,
  rw (named, str_eq_refl path)
      (append-Counts s.is_open (content_at s.files path) (take env.room line) s.current_file_size
        counts),
)

slot_zero :
    (opened : Bool) (max : ℕ) (slots : ℕ → Option Bytes)
    → or_blank (rotated_slot opened max slots 0) ≡ []
unfolding rotated_slot
slot_zero true max slots = refl
slot_zero false max slots = refl

pub rotated_empty :
    (opened : Bool) (path : Bytes) (max : ℕ) (files : Files)
    → AreWhole path (suc max)
    → 0 < max
    → content_at (rotate_files opened path max files) path ≡ []
rotated_empty opened path max files whole kept =
    subst (λ p. content_at (rotate_files opened path max files) p ≡ [])
      (backup_zero path (suc max) whole)
      (ap or_blank (rotate_files-slots path max files opened 0 whole kept (omega arith))
        ∙ slot_zero opened max (λ i. files (backup_path path i)))

empty-Counts : (opened : Bool) (content : Bytes) → content ≡ [] → Counts opened content 0
unfolding Counts
empty-Counts true content e = ap length e
empty-Counts false content e = tt

rotate_at-IsSound :
    (env : Env) (path : Bytes) (s : LogState)
    → IsSound path s
    → IsSound path (rotate_at env (some path) s)
unfolding IsSound rotate_at
rotate_at-IsSound env path s (named, kept, whole, counts) = elim (Bool-cases s.is_open) [
  | inl opened ↦ rw opened (
    named,
    kept,
    whole,
    empty-Counts env.opens
        (content_at (rotate_files env.opens path s.config.max_backup_files s.files) path)
        (rotated_empty env.opens path s.config.max_backup_files s.files whole kept),
  )
  | inr closed ↦ rw closed (named, kept, whole, tt)
]

rotate_if_full-IsSound :
    (env : Env) (path : Bytes) (s : LogState) → IsSound path s → IsSound path (rotate_if_full env s)
unfolding rotate_if_full rotate_log_file IsSound
rotate_if_full-IsSound env path s sound =
    chosen (ltb 0 s.config.max_file_size && leb s.config.max_file_size s.current_file_size)
  where
    chosen : (full : Bool) → IsSound path (if full then rotate_log_file env s else s)
    chosen true =
        subst (λ p. IsSound path (rotate_at env p s)) (sym sound.0)
          (rotate_at-IsSound env path s sound)
    chosen false = sound

file_output-IsSound :
    (env : Env) (line path : Bytes) (s : LogState)
    → IsSound path s
    → IsSound path (file_output env line s)
unfolding file_output
file_output-IsSound env line path s sound = chosen (writes_file s)
  where
    chosen :
        (written : Bool)
        → IsSound path (
            if written then rotate_if_full env (write_line env (clean_line s.config line) s) else s)
    chosen true =
        rotate_if_full-IsSound env path (write_line env (clean_line s.config line) s)
          (write_line-IsSound env (clean_line s.config line) path s sound)
    chosen false = sound

syslog_output-IsSound :
    (call : LogCall) (message path : Bytes) (s : LogState)
    → IsSound path s
    → IsSound path (syslog_output call message s)
unfolding syslog_output
syslog_output-IsSound call message path s sound =
    emit_if-IsSound (has_output s.config.outputs to_syslog)
      (syslog (syslog_level call.level)
        (codes "[" ++ or_blank call.component ++ codes "] " ++ message))
      path s sound

callback_output-IsSound :
    (call : LogCall) (message path : Bytes) (s : LogState)
    → IsSound path s
    → IsSound path (callback_output call message s)
unfolding callback_output
callback_output-IsSound call message path s sound =
    emit_if-IsSound (has_output s.config.outputs to_callback && s.config.has_callback)
      (callback call.level call.component message call.file call.line) path s sound

pub deliver-IsSound :
    (env : Env) (call : LogCall) (message line path : Bytes) (s : LogState)
    → IsSound path s
    → IsSound path (deliver env call message line s)
unfolding deliver
deliver-IsSound env call message line path s sound =
    let printed = emit_if (has_output s.config.outputs to_stdout) (stdout line) s in
    let shown = emit_if (has_output s.config.outputs to_stderr) (stderr line) printed in
    let written = file_output env line shown in
    callback_output-IsSound call message path (syslog_output call message written) (
      syslog_output-IsSound call message path written (
        file_output-IsSound env line path shown (
          emit_if-IsSound (has_output s.config.outputs to_stderr) (stderr line) path printed
            (emit_if-IsSound (has_output s.config.outputs to_stdout) (stdout line) path s sound))))

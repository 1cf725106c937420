-- ===== src/Logging/Writing.antt =====
-- The counter of src/logging.c over sequences of calls.
use bacnet_event_server.Base.{
  ◌≡◌, refl, sym, subst, ◌∙◌, Bool, true, false, List, [], ◌∷◌, Option, none, some, Bytes,
  copy_string, ◌⊎◌, if◌then◌else◌, Option-cases, inl, inr,
}
use bacnet_event_server.Base.Scan.{◌>>=◌}
use mathlib.Core.Option.{some-injective, none-ne-some}
use bacnet_event_server.Logging.Levels.{Level}
use bacnet_event_server.Logging.Line.{LogCall, format_line, has_output, to_stdout}
use bacnet_event_server.Logging.Sink.{
  LogState, Env, stdout, structured_line, emit_if, write_line, writes_file, deliver, is_filtered,
  log_writev, log_structured, log_set_level,
}
use bacnet_event_server.Logging.Run.{LogOp, writev, structured, set_level, apply, run}
use bacnet_event_server.Logging.Counted.{
  IsSound, write_line-IsSound, emit_if-IsSound, deliver-IsSound,
}

-- What a log_writev that returns has done.
pub log_writev-cases :
    (env : Env) (call : LogCall) (s t : LogState)
    → log_writev env call s ≡ some t
    → ((is_filtered call.level s ≡ true) × (t ≡ s))
      ⊎ ((line : Bytes) × (t ≡ deliver env call (copy_string 2048 call.content) line s))
unfolding log_writev
log_writev-cases env call s t e =
    decided (is_filtered call.level s)
      (format_line s.config env.local_time env.utc_time call (copy_string 2048 call.content)) e
  where
    decided :
        (filtered : Bool) (formatted : Option Bytes)
        → (if filtered then some s else do
          line ← formatted
          some (deliver env call (copy_string 2048 call.content) line s))
          ≡ some t
        → ((filtered ≡ true) × (t ≡ s))
          ⊎ ((line : Bytes) × (t ≡ deliver env call (copy_string 2048 call.content) line s))
    decided true formatted h = inl (refl, sym (some-injective s t h))
    decided false none h = absurd (none-ne-some t h)
    decided false (some line) h =
        inr
          (line, sym (some-injective (deliver env call (copy_string 2048 call.content) line s) t h))

pub log_writev-IsSound :
    (env : Env) (call : LogCall) (path : Bytes) (s t : LogState)
    → IsSound path s
    → log_writev env call s ≡ some t
    → IsSound path t
log_writev-IsSound env call path s t sound e = elim (log_writev-cases env call s t e) [
  | inl (filtered, same) ↦ subst (IsSound path) (sym same) sound
  | inr (line, done) ↦
      subst (IsSound path) (sym done)
        (deliver-IsSound env call (copy_string 2048 call.content) line path s sound)
]

log_structured-IsSound :
    (env : Env) (level : Level) (component : Option Bytes) (message : Bytes)
    (data_text : Option Bytes) (path : Bytes) (s : LogState)
    → IsSound path s
    → IsSound path (log_structured env level component message data_text s)
unfolding log_structured
log_structured-IsSound env level component message data_text path s sound =
    let line = structured_line env.utc_time level component message data_text in
    let shown = emit_if (has_output s.config.outputs to_stdout) (stdout line) s in
    let shown_sound =
      emit_if-IsSound (has_output s.config.outputs to_stdout) (stdout line) path s sound in
    chosen (is_filtered level s) (writes_file shown) line shown shown_sound
  where
    chosen :
        (filtered written : Bool) (line : Bytes) (shown : LogState)
        → IsSound path shown
        → IsSound path
            (if filtered then s else if written then write_line env line shown else shown)
    chosen true written line shown h = sound
    chosen false true line shown h = write_line-IsSound env line path shown h
    chosen false false line shown h = h

apply-IsSound :
    (op : LogOp) (path : Bytes) (s t : LogState)
    → IsSound path s
    → apply op s ≡ some t
    → IsSound path t
unfolding apply log_set_level IsSound
apply-IsSound (writev env call) path s t sound e = log_writev-IsSound env call path s t sound e
apply-IsSound (structured env level component message data_text) path s t sound e =
    let after = log_structured env level component message data_text s in
    subst (IsSound path) (some-injective after t e)
      (log_structured-IsSound env level component message data_text path s sound)
apply-IsSound (set_level level) path s t sound e =
    subst (IsSound path) (some-injective (log_set_level level s) t e) sound

-- The invariant holds after any sequence of log_writev, log_structured and log_set_level that never prints outside its buffer, whatever fopen, fwrite and the configured outputs do.
pub run-IsSound :
    (ops : List LogOp) (path : Bytes) (s t : LogState)
    → IsSound path s
    → run ops s ≡ some t
    → IsSound path t
unfolding run
run-IsSound [] path s t sound e = subst (IsSound path) (some-injective s t e) sound
run-IsSound (op ∷ ops) path s t sound e = elim (Option-cases (apply op s)) [
  | inl failed ↦ absurd (none-ne-some t (sym (rw failed refl) ∙ e))
  | inr (next, done) ↦
      run-IsSound ops path next t (apply-IsSound op path s next sound done) (sym (rw done refl) ∙ e)
]

-- ===== src/Logging/Run.antt =====
-- Sequences of calls of src/logging.c between log_init and log_shutdown.
use bacnet_event_server.Base.{List, [], ◌∷◌, Option, some, Bytes}
use bacnet_event_server.Base.Scan.{◌>>=◌}
use bacnet_event_server.Logging.Levels.{Level}
use bacnet_event_server.Logging.Line.{LogCall}
use bacnet_event_server.Logging.Sink.{LogState, Env, log_writev, log_structured, log_set_level}

pub data LogOp : Type 0 where
  writev : Env → LogCall → LogOp
  structured : Env → Level → Option Bytes → Bytes → Option Bytes → LogOp
  set_level : Level → LogOp

unfoldable pub apply : LogOp → LogState → Option LogState
unfolding log_writev log_structured log_set_level
apply (writev env call) s = log_writev env call s
apply (structured env level component message data_text) s =
    some (log_structured env level component message data_text s)
apply (set_level level) s = some (log_set_level level s)

unfoldable pub run : List LogOp → LogState → Option LogState
unfolding apply
run [] s = some s
run (op ∷ ops) s = do t ← apply op s; run ops t

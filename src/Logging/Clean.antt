-- ===== src/Logging/Clean.antt =====
-- What log_writev of src/logging.c hands to the log file.
use bacnet_event_server.Base.{◌<◌, ◌≡◌, ◌≢◌, true, Bytes, All, length}
use bacnet_event_server.Logging.Line.{LogConfig, text}
use bacnet_event_server.Logging.Escaping.{strip_ansi_clean}
use bacnet_event_server.Logging.Sink.{clean_line}

-- With the text format and colours the line for the log file holds no escape character, and fits its buffer of
-- 4096 bytes with the terminator.
pub clean_line-strip_ansi :
    (config : LogConfig) (line : Bytes)
    → config.format ≡ text
    → config.colorize ≡ true
    → All (λ c. c ≢ 27) (clean_line config line) × (length (clean_line config line) < 4096)
unfolding clean_line
clean_line-strip_ansi config line formatted coloured =
    rw (formatted, coloured) (strip_ansi_clean line)

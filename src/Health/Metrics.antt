-- ===== src/Health/Metrics.antt =====
-- The metrics of src/health_api.c: the counters, and the texts of /metrics and /status.
pub mod Counters
unfoldable pub use Counters.*
use bacnet_event_server.Base.{
  ℕ, String, ◌+◌, ◌-◌, ◌*◌, ◌%◌, List, [], ◌∷◌, ◌++◌, Option, none, some, Bytes, codes,
}
use bacnet_event_server.Base.Words.{u64_mod}
use bacnet_event_server.Base.Decimal.{print_nat, print_signed}
use bacnet_event_server.Base.Buffer.{Cursor, start, print_pieces}
use bacnet_event_server.Health.Histogram.{Histogram, cumulative}
use bacnet_event_server.Health.Checks.{quoted}

pub data Kind : Type 0 where
  counter gauge : Kind

abbrev pub kind_text : Kind → Bytes
kind_text counter = codes "counter"
kind_text gauge = codes "gauge"

abbrev pub newline : Bytes
newline = 10 ∷ []

-- The two comment lines of a metric.
unfoldable pub comment_lines : String → String → Bytes → Bytes
comment_lines name help kind =
    codes "# HELP "
    ++ codes name
    ++ codes " "
    ++ codes help
    ++ newline
    ++ codes "# TYPE "
    ++ codes name
    ++ codes " "
    ++ kind
    ++ newline

-- A counter or a gauge.
unfoldable pub metric : String → String → Kind → Bytes → Bytes
unfolding comment_lines
metric name help kind number =
    comment_lines name help (kind_text kind) ++ codes name ++ codes " " ++ number ++ newline

-- The bounds in seconds, as `%.3f` prints them, and the last one, infinity.
abbrev pub processing_bounds : List String
processing_bounds =
    "0.001" ∷ "0.005" ∷ "0.010" ∷ "0.025" ∷ "0.050" ∷ "0.100" ∷ "0.250" ∷ "0.500" ∷ "1.000" ∷ "+Inf"
    ∷ []

abbrev pub read_bounds : List String
read_bounds = "0.001" ∷ "0.005" ∷ "0.010" ∷ "0.025" ∷ "0.050" ∷ "0.100" ∷ "+Inf" ∷ []

unfoldable pub bucket_line : String → String → ℕ → Bytes
bucket_line name bound count =
    codes name
    ++ codes "_bucket{le="
    ++ quoted (codes bound)
    ++ codes "} "
    ++ print_nat count
    ++ newline

-- The loop over the bounds, with the cumulative counts.
unfoldable pub bucket_lines : String → List String → List ℕ → List Bytes
unfolding bucket_line
bucket_lines name [] counts = []
bucket_lines name (bound ∷ bounds) [] = []
bucket_lines name (bound ∷ bounds) (count ∷ counts) =
    bucket_line name bound count ∷ bucket_lines name bounds counts

abbrev pub join : List (List Bytes) → List Bytes
join [] = []
join (g ∷ gs) = g ++ join gs

-- `fixed n x` is what `%.nf` prints of the double `x`, and `per_thousand x` is `x / 1000.0`.
module _ (fixed : ℕ → ℕ → Bytes) (per_thousand : ℕ → ℕ) where
  unfoldable pub sum_lines : String → Histogram → Bytes
  sum_lines name h =
      codes name
      ++ codes "_sum "
      ++ fixed 6 (per_thousand h.sum)
      ++ newline
      ++ codes name
      ++ codes "_count "
      ++ print_nat h.count
      ++ newline
      ++ newline

  unfoldable pub histogram_pieces : String → String → List String → Histogram → List Bytes
  unfolding comment_lines bucket_lines sum_lines
  histogram_pieces name help bounds h =
      comment_lines name help (codes "histogram")
      ∷ (bucket_lines name bounds (cumulative 0 h.buckets) ++ sum_lines name h ∷ [])

  unfoldable pub process_pieces : SystemMetrics → List Bytes
  unfolding metric
  process_pieces m =
      (metric "process_start_time_seconds" "Start time of the process since unix epoch in seconds."
          gauge (print_nat m.process_start_time_seconds)
        ++ newline)
      ∷ (metric "process_cpu_seconds_total" "Total user and system CPU time spent in seconds."
            counter (fixed 6 m.process_cpu_seconds_total)
          ++ newline)
      ∷ (metric "process_resident_memory_bytes" "Resident memory size in bytes." gauge
            (print_nat m.process_resident_memory_bytes)
          ++ newline)
      ∷ (metric "process_virtual_memory_bytes" "Virtual memory size in bytes." gauge
            (print_nat m.process_virtual_memory_bytes)
          ++ newline)
      ∷ (metric "process_open_fds" "Number of open file descriptors." gauge
            (print_nat m.process_open_fds)
          ++ newline)
      ∷ []

  unfoldable pub message_pieces : SystemMetrics → List Bytes
  unfolding metric
  message_pieces m =
      (metric "bacnet_messages_received_total" "Total number of messages received from KurrentDB."
          counter (print_nat m.messages_received_total)
        ++ newline)
      ∷ (metric "bacnet_messages_processed_total" "Total number of messages successfully processed."
            counter (print_nat m.messages_processed_total)
          ++ newline)
      ∷ (metric "bacnet_messages_failed_total" "Total number of messages that failed processing."
            counter (print_nat m.messages_failed_total)
          ++ newline)
      ∷ []

  unfoldable pub objects_pieces : SystemMetrics → List Bytes
  unfolding metric
  objects_pieces m =
      (metric "bacnet_objects_total" "Total number of BACnet objects." gauge
          (print_nat m.objects_total)
        ++ newline)
      ∷ []

  unfoldable pub operation_pieces : SystemMetrics → List Bytes
  unfolding metric
  operation_pieces m =
      (metric "bacnet_read_requests_total" "Total number of BACnet read requests." counter
          (print_nat m.bacnet_read_requests_total)
        ++ newline)
      ∷ (metric "bacnet_write_requests_total" "Total number of BACnet write requests." counter
            (print_nat m.bacnet_write_requests_total)
          ++ newline)
      ∷ (metric "bacnet_cov_notifications_total" "Total number of COV notifications sent." counter
            (print_nat m.bacnet_cov_notifications_total)
          ++ newline)
      ∷ (metric "bacnet_cov_subscriptions_active" "Number of active COV subscriptions." gauge
            (print_nat m.bacnet_cov_subscriptions_active)
          ++ newline)
      ∷ []

  unfoldable pub redis_pieces : SystemMetrics → List Bytes
  unfolding metric
  redis_pieces m =
      (metric "bacnet_redis_commands_total" "Total number of Redis commands executed." counter
          (print_nat m.redis_commands_total)
        ++ newline)
      ∷ (metric "bacnet_redis_errors_total" "Total number of Redis errors." counter
            (print_nat m.redis_errors_total)
          ++ newline)
      ∷ (metric "bacnet_redis_reconnects_total" "Total number of Redis reconnections." counter
            (print_nat m.redis_reconnects_total)
          ++ newline)
      ∷ []

  unfoldable pub kurrent_pieces : SystemMetrics → List Bytes
  unfolding metric
  kurrent_pieces m =
      (metric "bacnet_kurrentdb_events_received_total" "Total events received from KurrentDB."
          counter (print_nat m.kurrentdb_events_received_total)
        ++ newline)
      ∷ (metric "bacnet_kurrentdb_events_acked_total" "Total events acknowledged." counter
            (print_nat m.kurrentdb_events_acked_total)
          ++ newline)
      ∷ (metric "bacnet_kurrentdb_lag_events" "Number of events behind stream head." gauge
            (print_signed 64 m.kurrentdb_lag_events)
          ++ newline)
      ∷ []

  -- The pieces that handle_metrics prints, in order.
  unfoldable pub metric_pieces : SystemMetrics → List Bytes
  unfolding process_pieces message_pieces histogram_pieces objects_pieces operation_pieces
      redis_pieces kurrent_pieces metric
  metric_pieces m = join (
      process_pieces m
      ∷ message_pieces m
      ∷ histogram_pieces "bacnet_message_processing_seconds" "Time spent processing messages."
          processing_bounds m.processing_latency
      ∷ objects_pieces m
      ∷ operation_pieces m
      ∷ histogram_pieces "bacnet_read_latency_seconds" "Time spent handling read requests."
          read_bounds m.read_latency
      ∷ redis_pieces m
      ∷ kurrent_pieces m
      ∷ (metric "bacnet_errors_total" "Total number of errors." counter (print_nat m.errors_total)
          ∷ [])
      ∷ [])

  -- The buffer of handle_metrics after the last piece; `none` if a piece would be written outside.
  unfoldable pub metrics_text : SystemMetrics → Option Cursor
  unfolding metric_pieces print_pieces
  metrics_text m = print_pieces 32768 (metric_pieces m) start

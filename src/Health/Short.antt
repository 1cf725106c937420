-- ===== src/Health/Short.antt =====
-- The pieces of /metrics in src/health_api.c that are short: histograms, the process and the messages.
use bacnet_event_server.Base.{
  ℕ, String, ◌+◌, ◌^◌, ◌≤◌, ◌<◌, List, [], ◌∷◌, Bytes, codes, length, length-append, All, arith,
}
use bacnet_event_server.Base.Decimal.{print_nat}
use bacnet_event_server.Health.Histogram.{Histogram, cumulative}
use bacnet_event_server.Health.Metrics.{
  SystemMetrics, counter, comment_lines, metric, bucket_lines, sum_lines, histogram_pieces,
  process_pieces, message_pieces,
}
use bacnet_event_server.Health.Lines.{
  length-word, AreShort, append-AreShort, length-comment_lines, bucket_lines-AreShort,
}

-- The counters that are printed hold 64-bit words.
pub record AreWords (m : SystemMetrics) : Type 0 where
  pub process_start_time_seconds : m.process_start_time_seconds < 2 ^ 64
  pub process_resident_memory_bytes : m.process_resident_memory_bytes < 2 ^ 64
  pub process_virtual_memory_bytes : m.process_virtual_memory_bytes < 2 ^ 64
  pub process_open_fds : m.process_open_fds < 2 ^ 64
  pub messages_received_total : m.messages_received_total < 2 ^ 64
  pub messages_processed_total : m.messages_processed_total < 2 ^ 64
  pub messages_failed_total : m.messages_failed_total < 2 ^ 64
  pub objects_total : m.objects_total < 2 ^ 64
  pub bacnet_read_requests_total : m.bacnet_read_requests_total < 2 ^ 64
  pub bacnet_write_requests_total : m.bacnet_write_requests_total < 2 ^ 64
  pub bacnet_cov_notifications_total : m.bacnet_cov_notifications_total < 2 ^ 64
  pub bacnet_cov_subscriptions_active : m.bacnet_cov_subscriptions_active < 2 ^ 64
  pub redis_commands_total : m.redis_commands_total < 2 ^ 64
  pub redis_errors_total : m.redis_errors_total < 2 ^ 64
  pub redis_reconnects_total : m.redis_reconnects_total < 2 ^ 64
  pub kurrentdb_events_received_total : m.kurrentdb_events_received_total < 2 ^ 64
  pub kurrentdb_events_acked_total : m.kurrentdb_events_acked_total < 2 ^ 64
  pub kurrentdb_lag_events : m.kurrentdb_lag_events < 2 ^ 64
  pub errors_total : m.errors_total < 2 ^ 64
  pub processing_count : m.processing_latency.count < 2 ^ 64
  pub read_count : m.read_latency.count < 2 ^ 64

module _ (fixed : ℕ → ℕ → Bytes) (per_thousand : ℕ → ℕ)
    (room : (places x : ℕ) → length (fixed places x) ≤ 317) where
  length-sum_lines :
      (name : String) (h : Histogram)
      → length (codes name) ≤ 64
      → h.count < 2 ^ 64
      → length (sum_lines fixed per_thousand name h) ≤ 700
  unfolding sum_lines
  length-sum_lines name h k l =
      simp length-append (omega (arith, length-word h.count l, room 6 (per_thousand h.sum)))

  pub histogram-AreShort :
      (name help : String) (bounds : List String) (h : Histogram)
      → length (codes name) ≤ 64
      → length (codes help) ≤ 80
      → All (λ b. length (codes b) ≤ 5) bounds
      → h.count < 2 ^ 64
      → AreShort (histogram_pieces fixed per_thousand name help bounds h)
        × (length (histogram_pieces fixed per_thousand name help bounds h) ≤ length bounds + 2)
  unfolding histogram_pieces AreShort
  histogram-AreShort name help bounds h k l b w =
      let lines = bucket_lines-AreShort name bounds 0 h.buckets k b in
      let last = sum_lines fixed per_thousand name h ∷ [] in
      let drawn = bucket_lines name bounds (cumulative 0 h.buckets) in
      (
        (
          omega (arith, length-comment_lines name help (codes "histogram")),
          append-AreShort drawn last lines.0 (length-sum_lines name h k w, tt),
        ),
        omega (arith, lines.1, length-append drawn last),
      )

  pub errors-AreShort :
      (m : SystemMetrics)
      → AreWords m
      → AreShort (
          metric "bacnet_errors_total" "Total number of errors." counter (print_nat m.errors_total)
          ∷ [])
  unfolding AreShort metric comment_lines
  errors-AreShort m words =
      (simp length-append (omega (arith, length-word m.errors_total words.errors_total)), tt)

  pub process-AreShort :
      (m : SystemMetrics) → AreWords m → AreShort (process_pieces fixed per_thousand m)
  unfolding process_pieces AreShort metric comment_lines
  process-AreShort m words = (
    simp length-append
        (omega (arith, length-word m.process_start_time_seconds words.process_start_time_seconds)),
    (
      simp length-append (omega (arith, room 6 m.process_cpu_seconds_total)),
      (
        simp length-append (
            omega (
              arith,
              length-word m.process_resident_memory_bytes words.process_resident_memory_bytes,
            )),
        (
          simp length-append (
              omega (
                arith,
                length-word m.process_virtual_memory_bytes words.process_virtual_memory_bytes,
              )),
          (
            simp length-append
                (omega (arith, length-word m.process_open_fds words.process_open_fds)),
            tt,
          ),
        ),
      ),
    ),
  )

  pub message-AreShort :
      (m : SystemMetrics) → AreWords m → AreShort (message_pieces fixed per_thousand m)
  unfolding message_pieces AreShort metric comment_lines
  message-AreShort m words = (
    simp length-append
        (omega (arith, length-word m.messages_received_total words.messages_received_total)),
    (
      simp length-append
          (omega (arith, length-word m.messages_processed_total words.messages_processed_total)),
      (
        simp length-append
            (omega (arith, length-word m.messages_failed_total words.messages_failed_total)),
        tt,
      ),
    ),
  )

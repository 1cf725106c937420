-- ===== src/Health/Room.antt =====
-- The room that the text of /metrics in src/health_api.c takes.
use bacnet_event_server.Base.{
  ℕ, ◌≤◌, ◌≡◌, ap, ◌∙◌, [], ◌∷◌, some, Bytes, length, length-append, arith, take_enough,
}
use bacnet_event_server.Base.Decimal.{print_nat}
use bacnet_event_server.Base.Buffer.{concat, print_pieces_lem, cursor_at}
use bacnet_event_server.Health.Metrics.{
  SystemMetrics, counter, comment_lines, metric, processing_bounds, read_bounds, histogram_pieces,
  process_pieces, message_pieces, objects_pieces, operation_pieces, redis_pieces, kurrent_pieces,
  metric_pieces, metrics_text,
}
use bacnet_event_server.Health.Lines.{
  length-word, length-signed, AreShort, length-concat, bounds_short, join-AreShort, length-join,
}
use bacnet_event_server.Health.Short.{
  AreWords, histogram-AreShort, errors-AreShort, process-AreShort, message-AreShort,
}

module _ (fixed : ℕ → ℕ → Bytes) (per_thousand : ℕ → ℕ)
    (room : (places x : ℕ) → length (fixed places x) ≤ 317) where
  objects-AreShort :
      (m : SystemMetrics) → AreWords m → AreShort (objects_pieces fixed per_thousand m)
  unfolding objects_pieces AreShort metric comment_lines
  objects-AreShort m words =
      (simp length-append (omega (arith, length-word m.objects_total words.objects_total)), tt)

  operation-AreShort :
      (m : SystemMetrics) → AreWords m → AreShort (operation_pieces fixed per_thousand m)
  unfolding operation_pieces AreShort metric comment_lines
  operation-AreShort m words = (
    simp length-append
        (omega (arith, length-word m.bacnet_read_requests_total words.bacnet_read_requests_total)),
    (
      simp length-append (
          omega
            (arith, length-word m.bacnet_write_requests_total words.bacnet_write_requests_total)),
      (
        simp length-append (
            omega (
              arith,
              length-word m.bacnet_cov_notifications_total words.bacnet_cov_notifications_total,
            )),
        (
          simp length-append (
              omega (
                arith,
                length-word m.bacnet_cov_subscriptions_active words.bacnet_cov_subscriptions_active,
              )),
          tt,
        ),
      ),
    ),
  )

  redis-AreShort : (m : SystemMetrics) → AreWords m → AreShort (redis_pieces fixed per_thousand m)
  unfolding redis_pieces AreShort metric comment_lines
  redis-AreShort m words = (
    simp length-append
        (omega (arith, length-word m.redis_commands_total words.redis_commands_total)),
    (
      simp length-append (omega (arith, length-word m.redis_errors_total words.redis_errors_total)),
      (
        simp length-append
            (omega (arith, length-word m.redis_reconnects_total words.redis_reconnects_total)),
        tt,
      ),
    ),
  )

  kurrent-AreShort :
      (m : SystemMetrics) → AreWords m → AreShort (kurrent_pieces fixed per_thousand m)
  unfolding kurrent_pieces AreShort metric comment_lines
  kurrent-AreShort m words = (
    simp length-append (
        omega (
          arith,
          length-word m.kurrentdb_events_received_total words.kurrentdb_events_received_total,
        )),
    (
      simp length-append (
          omega
            (arith, length-word m.kurrentdb_events_acked_total words.kurrentdb_events_acked_total)),
      (
        simp length-append
            (omega (arith, length-signed m.kurrentdb_lag_events words.kurrentdb_lag_events)),
        tt,
      ),
    ),
  )

  pieces-AreShort :
      (m : SystemMetrics)
      → AreWords m
      → AreShort (metric_pieces fixed per_thousand m)
        × (length (metric_pieces fixed per_thousand m) ≤ 41)
  unfolding metric_pieces process_pieces message_pieces objects_pieces operation_pieces redis_pieces
      kurrent_pieces
  pieces-AreShort m words =
      let groups =
        process_pieces fixed per_thousand m
        ∷ message_pieces fixed per_thousand m
        ∷ histogram_pieces fixed per_thousand "bacnet_message_processing_seconds"
            "Time spent processing messages." processing_bounds m.processing_latency
        ∷ objects_pieces fixed per_thousand m
        ∷ operation_pieces fixed per_thousand m
        ∷ histogram_pieces fixed per_thousand "bacnet_read_latency_seconds"
            "Time spent handling read requests." read_bounds m.read_latency
        ∷ redis_pieces fixed per_thousand m
        ∷ kurrent_pieces fixed per_thousand m
        ∷ (metric "bacnet_errors_total" "Total number of errors." counter (print_nat m.errors_total)
            ∷ [])
        ∷ [] in
      let processing =
        histogram-AreShort fixed per_thousand room "bacnet_message_processing_seconds"
          "Time spent processing messages." processing_bounds m.processing_latency (omega arith)
          (omega arith) bounds_short.0 words.processing_count in
      let reading =
        histogram-AreShort fixed per_thousand room "bacnet_read_latency_seconds"
          "Time spent handling read requests." read_bounds m.read_latency (omega arith)
          (omega arith) bounds_short.1 words.read_count in
      (
        join-AreShort groups (
          process-AreShort fixed per_thousand room m words,
          (
            message-AreShort fixed per_thousand room m words,
            (
              processing.0,
              (
                objects-AreShort m words,
                (
                  operation-AreShort m words,
                  (
                    reading.0,
                    (
                      redis-AreShort m words,
                      (
                        kurrent-AreShort m words,
                        (errors-AreShort fixed per_thousand room m words, tt),
                      ),
                    ),
                  ),
                ),
              ),
            ),
          ),
        ),
        omega (arith, length-join groups, processing.1, reading.1),
      )

  -- If %.6f prints at most 317 characters and the counters are 64-bit words, the text of /metrics stays in its buffer of 32768 bytes: no piece is cut or printed outside, and the length that is sent is that of the text.
  pub metrics_text-fits :
      (m : SystemMetrics)
      → AreWords m
      → metrics_text fixed per_thousand m
        ≡ some (record {
          buffer = concat (metric_pieces fixed per_thousand m);
          offset = length (concat (metric_pieces fixed per_thousand m));
        })
  unfolding metrics_text cursor_at
  metrics_text-fits m words =
      let short = pieces-AreShort m words in
      let all = length-concat (metric_pieces fixed per_thousand m) short.0 in
      print_pieces_lem 32768 (metric_pieces fixed per_thousand m) [] (omega (arith, all, short.1))
      ∙ ap
          (λ b.
            some (record {
              buffer = b;
              offset = length (concat (metric_pieces fixed per_thousand m));
            }))
          (take_enough 32767 (concat (metric_pieces fixed per_thousand m))
            (omega (arith, all, short.1)))

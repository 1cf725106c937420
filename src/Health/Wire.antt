-- ===== src/Health/Wire.antt =====
-- The texts and the requests of the health API at concrete inputs.
use bacnet_event_server.Base.{
  ℕ, String, ◌≡◌, true, List, [], ◌∷◌, none, some, Bytes, codes, length, arith, str_eq,
}
use bacnet_event_server.Base.Buffer.{concat}
use bacnet_event_server.Health.Histogram.{Histogram}
use bacnet_event_server.Health.Checks.{HealthStatus, up, new_check, handle_health_ready}
use bacnet_event_server.Health.Metrics.{
  SystemMetrics, processing_bounds, read_bounds, metric_pieces, metrics_text,
}
use bacnet_event_server.Health.Short.{AreWords}
use bacnet_event_server.Health.Room.{metrics_text-fits}
use bacnet_event_server.Health.Http.{
  World, ApiState, json_reply, handle_request, serve_route, route_of,
}
use bacnet_event_server.Health.Requests.{IsWordText, handle_request-routes}

zeros : List String → List ℕ
zeros [] = []
zeros (b ∷ bs) = 0 ∷ zeros bs

abbrev histogram_of : List String → Histogram
histogram_of bounds = record { buckets = zeros bounds; count = 0; sum = 0 }

abbrev sample : SystemMetrics
sample = record {
  process_start_time_seconds = 0;
  process_cpu_seconds_total = 0;
  process_resident_memory_bytes = 0;
  process_virtual_memory_bytes = 0;
  process_open_fds = 0;
  messages_received_total = 0;
  messages_processed_total = 0;
  messages_failed_total = 0;
  messages_by_type = [];
  processing_latency = histogram_of processing_bounds;
  objects_total = 7;
  objects_by_type = [];
  bacnet_read_requests_total = 0;
  bacnet_write_requests_total = 0;
  bacnet_cov_notifications_total = 0;
  bacnet_cov_subscriptions_active = 0;
  read_latency = histogram_of read_bounds;
  redis_commands_total = 0;
  redis_errors_total = 0;
  redis_reconnects_total = 0;
  kurrentdb_events_received_total = 0;
  kurrentdb_events_acked_total = 0;
  kurrentdb_events_nacked_total = 0;
  kurrentdb_reconnects_total = 0;
  kurrentdb_lag_events = 0;
  errors_total = 0;
  errors_by_component = [];
}

abbrev sample-AreWords : AreWords sample
sample-AreWords = record {
  process_start_time_seconds = omega arith;
  process_resident_memory_bytes = omega arith;
  process_virtual_memory_bytes = omega arith;
  process_open_fds = omega arith;
  messages_received_total = omega arith;
  messages_processed_total = omega arith;
  messages_failed_total = omega arith;
  objects_total = omega arith;
  bacnet_read_requests_total = omega arith;
  bacnet_write_requests_total = omega arith;
  bacnet_cov_notifications_total = omega arith;
  bacnet_cov_subscriptions_active = omega arith;
  redis_commands_total = omega arith;
  redis_errors_total = omega arith;
  redis_reconnects_total = omega arith;
  kurrentdb_events_received_total = omega arith;
  kurrentdb_events_acked_total = omega arith;
  kurrentdb_lag_events = omega arith;
  errors_total = omega arith;
  processing_count = omega arith;
  read_count = omega arith;
}

abbrev fixed : ℕ → ℕ → Bytes
fixed places x = codes "0.0"

abbrev per_thousand : ℕ → ℕ
per_thousand x = x

metrics_text-fits_example :
    metrics_text fixed per_thousand sample
    ≡ some (record {
      buffer = concat (metric_pieces fixed per_thousand sample);
      offset = length (concat (metric_pieces fixed per_thousand sample));
    })
metrics_text-fits_example =
    metrics_text-fits fixed per_thousand (λ places x. omega arith) sample sample-AreWords

abbrev world : World HealthStatus
world = record {
  answer = λ status. (status, []);
  now = 100;
  process = record { cpu_seconds = none; pages = none; page_size = 4096; fd_entries = some 9 };
  allocates = true;
}

abbrev api : ApiState HealthStatus
api = record {
  metrics = sample;
  checks = new_check (codes "redis") (some up) ∷ [];
  start_time = 40;
}

get-IsWordText : IsWordText (codes "GET")
unfolding IsWordText
get-IsWordText = ground arith

ready-IsWordText : IsWordText (codes "/readyz")
unfolding IsWordText
ready-IsWordText = ground arith

handle_request-routes_example :
    handle_request fixed per_thousand world api (codes "GET /readyz HTTP/1.1")
    ≡ (api, some (json_reply (handle_health_ready world.answer api.checks)))
unfolding serve_route route_of str_eq
handle_request-routes_example =
    handle_request-routes fixed per_thousand world api b'G' (codes "ET") b'/' (codes "readyz")
      (codes "HTTP/1.1") get-IsWordText ready-IsWordText (omega arith) (omega arith)

-- ===== src/Health/Metrics/Counters.antt =====
-- The counters of src/health_api.c and update_process_metrics.
use bacnet_event_server.Base.{ℕ, ◌+◌, ◌-◌, ◌*◌, ◌%◌, List, Option, none, some}
use bacnet_event_server.Base.Words.{u64_mod}
use bacnet_event_server.Health.Histogram.{Histogram}

-- A `double` is its bit pattern and a negative `int64_t` its word.
pub record SystemMetrics : Type 0 where
  pub process_start_time_seconds : ℕ
  pub process_cpu_seconds_total : ℕ
  pub process_resident_memory_bytes : ℕ
  pub process_virtual_memory_bytes : ℕ
  pub process_open_fds : ℕ
  pub messages_received_total : ℕ
  pub messages_processed_total : ℕ
  pub messages_failed_total : ℕ
  pub messages_by_type : List ℕ
  pub processing_latency : Histogram
  pub objects_total : ℕ
  pub objects_by_type : List ℕ
  pub bacnet_read_requests_total : ℕ
  pub bacnet_write_requests_total : ℕ
  pub bacnet_cov_notifications_total : ℕ
  pub bacnet_cov_subscriptions_active : ℕ
  pub read_latency : Histogram
  pub redis_commands_total : ℕ
  pub redis_errors_total : ℕ
  pub redis_reconnects_total : ℕ
  pub kurrentdb_events_received_total : ℕ
  pub kurrentdb_events_acked_total : ℕ
  pub kurrentdb_events_nacked_total : ℕ
  pub kurrentdb_reconnects_total : ℕ
  pub kurrentdb_lag_events : ℕ
  pub errors_total : ℕ
  pub errors_by_component : List ℕ

-- What the system says of the process: the CPU time as a double, the sizes in pages with the size of a page, and the entries of /proc/self/fd.
pub record Process : Type 0 where
  pub cpu_seconds : Option ℕ
  pub pages : Option (ℕ × ℕ)
  pub page_size : ℕ
  pub fd_entries : Option ℕ

abbrev set_cpu : Option ℕ → SystemMetrics → SystemMetrics
set_cpu none m = m
set_cpu (some seconds) m = record m { process_cpu_seconds_total = seconds }

abbrev set_memory : ℕ → Option (ℕ × ℕ) → SystemMetrics → SystemMetrics
set_memory page_size none m = m
set_memory page_size (some (vsize, rss)) m = record m {
  process_virtual_memory_bytes = (vsize * page_size) % u64_mod;
  process_resident_memory_bytes = (rss * page_size) % u64_mod;
}

abbrev set_fds : Option ℕ → SystemMetrics → SystemMetrics
set_fds none m = m
set_fds (some entries) m = record m { process_open_fds = (entries + u64_mod - 2) % u64_mod }

-- update_process_metrics.
unfoldable pub update_process_metrics : Process → SystemMetrics → SystemMetrics
update_process_metrics p m =
    set_fds p.fd_entries (set_memory p.page_size p.pages (set_cpu p.cpu_seconds m))

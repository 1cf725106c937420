-- ===== src/Health/Server.antt =====
-- The start, the thread and the end of the server of src/health_api.c.
use bacnet_event_server.Base.{
  ℕ, zero, suc, arith, ◌≡◌, Bool, true, false, List, [], ◌∷◌, Option, none, some, Bytes, codes,
  if◌then◌else◌,
}
use bacnet_event_server.Health.Metrics.{SystemMetrics}
use bacnet_event_server.Health.Http.{ApiState, World, Reply, handle_request}

pub record HealthConfig : Type 0 where
  pub port : ℕ
  pub bind_address : Option Bytes
  pub enable_pprof : Bool
  pub health_check_interval : ℕ

abbrev pub default_health_config : HealthConfig
default_health_config = record {
  port = 9090;
  bind_address = some (codes "0.0.0.0");
  enable_pprof = false;
  health_check_interval = 30;
}

-- api_state; the socket is open or -1.
pub record HealthServer (F : Type 0) : Type 0 where
  pub config : HealthConfig
  pub api : ApiState F
  pub has_socket : Bool
  pub running : Bool
  pub initialized : Bool

-- The answers of socket, bind, listen and pthread_create, and the time.
pub record StartEnv : Type 0 where
  pub creates : Bool
  pub binds : Bool
  pub listens : Bool
  pub starts : Bool
  pub now : ℕ

-- An array of zeros.
abbrev zeros : ℕ → List ℕ
zeros zero = []
zeros (suc n) = 0 ∷ zeros n

-- The metrics after memset, with the start time; the bits of the double 0 are zero.
unfoldable pub new_metrics : ℕ → SystemMetrics
new_metrics now = record {
  process_start_time_seconds = now;
  process_cpu_seconds_total = 0;
  process_resident_memory_bytes = 0;
  process_virtual_memory_bytes = 0;
  process_open_fds = 0;
  messages_received_total = 0;
  messages_processed_total = 0;
  messages_failed_total = 0;
  messages_by_type = zeros 4;
  processing_latency = record { buckets = zeros 10; count = 0; sum = 0 };
  objects_total = 0;
  objects_by_type = zeros 10;
  bacnet_read_requests_total = 0;
  bacnet_write_requests_total = 0;
  bacnet_cov_notifications_total = 0;
  bacnet_cov_subscriptions_active = 0;
  read_latency = record { buckets = zeros 7; count = 0; sum = 0 };
  redis_commands_total = 0;
  redis_errors_total = 0;
  redis_reconnects_total = 0;
  kurrentdb_events_received_total = 0;
  kurrentdb_events_acked_total = 0;
  kurrentdb_events_nacked_total = 0;
  kurrentdb_reconnects_total = 0;
  kurrentdb_lag_events = 0;
  errors_total = 0;
  errors_by_component = zeros 5;
}

abbrev pub config_or_default : Option HealthConfig → HealthConfig
config_or_default none = default_health_config
config_or_default (some config) = config

-- What accept answers: an error, or a client with its request.
pub data Accepted (F : Type 0) : Type 0 where
  accept_failed : Accepted F
  client : World F → Bytes → Accepted F

module _ {F : Type 0} where
  abbrev pub close_socket : HealthServer F → HealthServer F
  close_socket s = record s { has_socket = false }

  -- The steps after the metrics are initialised, each with its answer.
  unfoldable pub open_server : StartEnv → HealthServer F → Bool × HealthServer F
  open_server env s =
      let opened = record s { has_socket = true } in
      if env.creates
      then if env.binds
        then if env.listens
          then if env.starts
            then (true, record opened { running = true; initialized = true })
            else (false, record (close_socket opened) { running = false })
          else (false, close_socket opened)
        else (false, close_socket opened)
      else (false, close_socket s)

  -- health_api_init: the status is `true` for 0 and `false` for -1.
  unfoldable pub health_api_init :
      StartEnv → Option HealthConfig → HealthServer F → Bool × HealthServer F
  unfolding open_server new_metrics
  health_api_init env given s =
      if s.initialized
      then (true, s)
      else open_server env (record s {
        config = config_or_default given;
        api = record s.api { metrics = new_metrics env.now; start_time = env.now };
      })

  -- health_api_shutdown, which waits for the thread.
  unfoldable pub health_api_shutdown : HealthServer F → HealthServer F
  health_api_shutdown s =
      if s.initialized
      then record s { running = false; has_socket = false; initialized = false }
      else s

  -- server_thread_fn over what accept answers while `running` holds: the state, and a reply for each client.
  unfoldable pub server_thread :
      (ℕ → ℕ → Bytes) → (ℕ → ℕ) → List (Accepted F) → ApiState F → ApiState F × List (Option Reply)
  unfolding handle_request
  server_thread fixed per_thousand [] s = (s, [])
  server_thread fixed per_thousand (accept_failed ∷ accepted) s =
      server_thread fixed per_thousand accepted s
  server_thread fixed per_thousand (client w received ∷ accepted) s =
      let (next, reply) = handle_request fixed per_thousand w s received in
      let (last, replies) = server_thread fixed per_thousand accepted next in
      (last, reply ∷ replies)

  -- On a server that is not initialized, has no socket and does not run, the socket is open, the thread runs and the flag is set exactly if health_api_init answers success, and a shutdown undoes all three in any case.
  pub shutdown-init :
      (env : StartEnv) (given : Option HealthConfig) (s : HealthServer F)
      → s.initialized ≡ false
      → s.has_socket ≡ false
      → s.running ≡ false
      → ((health_api_init env given s).1.initialized ≡ (health_api_init env given s).0)
        × ((health_api_init env given s).1.has_socket ≡ (health_api_init env given s).0)
        × ((health_api_init env given s).1.running ≡ (health_api_init env given s).0)
        × ((health_api_shutdown (health_api_init env given s).1).initialized ≡ false)
        × ((health_api_shutdown (health_api_init env given s).1).has_socket ≡ false)
        × ((health_api_shutdown (health_api_init env given s).1).running ≡ false)
  unfolding health_api_init health_api_shutdown open_server
  shutdown-init env given s i h r = ground arith

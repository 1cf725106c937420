-- ===== src/Health/Http.antt =====
-- The requests of src/health_api.c: the request line, the routes, and the answer on the wire.
pub mod Parsing
unfoldable pub use Parsing.*
use bacnet_event_server.Base.{
  ℕ, zero, suc, ◌+◌, ◌-◌, ◌%◌, ◌^◌, Bool, ◌||◌, List, [], ◌∷◌, ◌++◌, Option, none, some, Bytes,
  codes, copy_string, str_eq, if◌then◌else◌, ◌==◌, length, take,
}
use bacnet_event_server.Base.Scan.{◌>>=◌, is_space, skip_spaces}
use bacnet_event_server.Base.Decimal.{print_nat, print_signed}
use bacnet_event_server.Base.Buffer.{Cursor}
use bacnet_event_server.Health.Checks.{
  HealthStatus, RegisteredCheck, Response, quoted, handle_health, handle_health_ready,
}
use bacnet_event_server.Health.Metrics.{
  SystemMetrics, Process, update_process_metrics, metrics_text,
}

-- An answer with its content type.
pub record Reply : Type 0 where
  pub content_type : Bytes
  pub response : Response

abbrev pub json_reply : Response → Reply
json_reply response = record { content_type = codes "application/json"; response = response }

abbrev pub text_reply : ℕ → Bytes → Reply
text_reply code body = record {
  content_type = codes "text/plain; charset=utf-8";
  response = record { code = code; body = body };
}

unfoldable pub status_text : ℕ → Bytes
status_text code =
    if code == 200
    then codes "OK"
    else if code == 404
    then codes "Not Found"
    else if code == 500
    then codes "Internal Server Error"
    else if code == 503
    then codes "Service Unavailable"
    else codes "Unknown"

abbrev pub crlf : Bytes
crlf = 13 ∷ 10 ∷ []

-- send_response, with the header in a buffer of 512 bytes.
unfoldable pub send_response : Reply → Bytes
unfolding status_text
send_response reply =
    copy_string 512 (
      codes "HTTP/1.1 "
      ++ print_nat reply.response.code
      ++ codes " "
      ++ status_text reply.response.code
      ++ crlf
      ++ codes "Content-Type: "
      ++ reply.content_type
      ++ crlf
      ++ codes "Content-Length: "
      ++ print_nat (length reply.response.body)
      ++ crlf
      ++ codes "Connection: close"
      ++ crlf
      ++ crlf)
    ++ reply.response.body

-- handle_health_live.
unfoldable pub handle_health_live : Reply
handle_health_live = json_reply (record {
  code = 200;
  body = codes "{" ++ quoted (codes "status") ++ codes ":" ++ quoted (codes "UP") ++ codes "}";
})

-- The state that the requests share.
pub record ApiState (F : Type 0) : Type 0 where
  pub metrics : SystemMetrics
  pub checks : List (RegisteredCheck F)
  pub start_time : ℕ

-- What one request meets: the answers of the check functions, the time, the process, and whether malloc succeeds.
pub record World (F : Type 0) : Type 0 where
  pub answer : F → HealthStatus × Bytes
  pub now : ℕ
  pub process : Process
  pub allocates : Bool

abbrev pub named : Bytes → Bytes → Bytes
named name value = quoted name ++ codes ":" ++ value

abbrev pub number : Bytes → ℕ → Bytes
number name n = named name (print_nat n)

abbrev pub group : Bytes → Bytes → Bytes
group name members = named name (codes "{" ++ members ++ codes "}")

module _ (fixed : ℕ → ℕ → Bytes) (per_thousand : ℕ → ℕ) where
  abbrev pub metrics_body : Option Cursor → Option Reply
  metrics_body none = none
  metrics_body (some c) = some (record {
    content_type = codes "text/plain; version=0.0.4; charset=utf-8";
    response = record { code = 200; body = take c.offset c.buffer };
  })

  -- handle_metrics; `none` if the text were printed outside its buffer.
  unfoldable pub handle_metrics : Bool → SystemMetrics → Option Reply
  unfolding metrics_text
  handle_metrics allocated m =
      if allocated
      then metrics_body (metrics_text fixed per_thousand m)
      else some (text_reply 500 (codes "Memory allocation failed"))

  -- The text of handle_status; `uptime` is that of %ld.
  unfoldable pub status_body : Bytes → SystemMetrics → Bytes
  status_body uptime m = copy_string 4096 (
      codes "{"
      ++ named (codes "version") (quoted (codes "1.0.0"))
      ++ codes ","
      ++ named (codes "uptime_seconds") uptime
      ++ codes ","
      ++ group (codes "messages") (
          number (codes "received") m.messages_received_total
          ++ codes ","
          ++ number (codes "processed") m.messages_processed_total
          ++ codes ","
          ++ number (codes "failed") m.messages_failed_total)
      ++ codes ","
      ++ group (codes "objects") (number (codes "total") m.objects_total)
      ++ codes ","
      ++ group (codes "bacnet") (
          number (codes "reads") m.bacnet_read_requests_total
          ++ codes ","
          ++ number (codes "writes") m.bacnet_write_requests_total
          ++ codes ","
          ++ number (codes "cov_notifications") m.bacnet_cov_notifications_total
          ++ codes ","
          ++ number (codes "cov_subscriptions") m.bacnet_cov_subscriptions_active)
      ++ codes ","
      ++ group (codes "redis") (
          number (codes "commands") m.redis_commands_total
          ++ codes ","
          ++ number (codes "errors") m.redis_errors_total
          ++ codes ","
          ++ number (codes "reconnects") m.redis_reconnects_total)
      ++ codes ","
      ++ group (codes "kurrentdb") (
          number (codes "events_received") m.kurrentdb_events_received_total
          ++ codes ","
          ++ number (codes "events_acked") m.kurrentdb_events_acked_total
          ++ codes ","
          ++ named (codes "lag") (print_signed 64 m.kurrentdb_lag_events))
      ++ codes ","
      ++ group (codes "process") (
          named (codes "cpu_seconds") (fixed 2 m.process_cpu_seconds_total)
          ++ codes ","
          ++ number (codes "memory_bytes") m.process_resident_memory_bytes
          ++ codes ","
          ++ number (codes "open_fds") m.process_open_fds)
      ++ codes "}")

  -- handle_status, with the uptime as a 64-bit difference.
  unfoldable pub handle_status : ℕ → ℕ → SystemMetrics → Reply
  unfolding status_body
  handle_status now start_time m = json_reply (record {
    code = 200;
    body = status_body (print_signed 64 ((now + 2 ^ 64 - start_time) % 2 ^ 64)) m;
  })

  module _ {F : Type 0} (w : World F) (s : ApiState F) where
    abbrev pub refreshed : ApiState F
    refreshed = record s { metrics = update_process_metrics w.process s.metrics }

    abbrev pub counted : ApiState F
    counted = if w.allocates then refreshed else s

    abbrev pub checked : ApiState F
    checked = record s { checks = (handle_health w.answer w.now s.checks).0 }

    -- The handlers: the new state, and the reply.
    unfoldable pub serve_route : Route → ApiState F × Option Reply
    unfolding handle_health_live handle_metrics handle_status
    serve_route bad_request = (s, some (text_reply 400 (codes "Bad Request")))
    serve_route not_allowed = (s, some (text_reply 405 (codes "Method Not Allowed")))
    serve_route health = (checked, some (json_reply (handle_health w.answer w.now s.checks).1))
    serve_route live = (s, some handle_health_live)
    serve_route ready = (s, some (json_reply (handle_health_ready w.answer s.checks)))
    serve_route metrics = (counted, handle_metrics w.allocates counted.metrics)
    serve_route status = (refreshed, some (handle_status w.now s.start_time refreshed.metrics))
    serve_route not_found = (s, some (text_reply 404 (codes "Not Found")))

    -- handle_request; recv stores at most 8191 bytes, and nothing is answered if it stores none.
    unfoldable pub handle_request : Bytes → ApiState F × Option Reply
    unfolding serve_route route_request
    handle_request [] = (s, none)
    handle_request (c ∷ received) = serve_route (route_request (c ∷ received))

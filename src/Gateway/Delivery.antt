-- ===== src/Gateway/Delivery.antt =====
-- Which events are acknowledged, and which stream position survives: on_event_received of src/main.c over
-- the cache of src/redis_cache.c.
use bacnet_event_server.Base.{ℕ, Bool, true, false, List}
use bacnet_event_server.Base.Json.{CJson}
use bacnet_event_server.Base.Words.{Fpu}
use bacnet_event_server.Message.Model.{ParsedMessage}
use bacnet_event_server.Message.Fields.{Parsed, ok, err}
use bacnet_event_server.Message.Process.{message_handler_process}
use bacnet_event_server.Redis.Client.{Hiredis, Cache}
use bacnet_event_server.Redis.Positions.{redis_cache_store_stream_position}
use bacnet_event_server.Gateway.Cached.{ServerCalls, cached_services}
use bacnet_event_server.Gateway.Unmoved.{Unmoved}
use bacnet_event_server.Gateway.Events.{Subscription, Event, find_offset}

abbrev pub is_rejected : Parsed ParsedMessage → Bool
is_rejected (err code) = true
is_rejected (ok m) = false

module _ {J C B : Type 0} (cj : CJson J) (fpu : Fpu) (api : Hiredis C) (server : ServerCalls B)
    (clock now : ℕ) (subs : List Subscription) where
  -- What processing a parsed message does to the state, and whether it succeeds.
  abbrev pub processed : Cache C × B → Event → Parsed ParsedMessage → (Cache C × B) × Bool
  processed s e (err code) = (s, false)
  processed s e (ok m) =
      message_handler_process (cached_services cj fpu api server clock) now s m
        (find_offset subs e.subscription_id)

  -- Whether HSET of the event's position succeeds after that.
  abbrev pub is_stored : Cache C × B → Event → Parsed ParsedMessage → Bool
  is_stored s e p =
      (redis_cache_store_stream_position api (processed s e p).0.0 e.subscription_id
        e.stream_revision).1

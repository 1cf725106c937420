-- ===== src/Gateway/Arrivals.antt =====
-- A run of on_event_received of src/main.c over the cache, and the replay of its messages on a view.
use bacnet_event_server.Base.{
  ℕ, ◌^◌, ◌<◌, Bool, true, ◌&&◌, List, [], ◌∷◌, Option, none, some, Bytes,
}
use bacnet_event_server.Base.Json.{CJson}
use bacnet_event_server.Base.Words.{Fpu}
use bacnet_event_server.Message.Model.{ParsedMessage}
use bacnet_event_server.Message.Fields.{Parsed, ok, err}
use bacnet_event_server.Redis.Client.{Hiredis, Cache}
use bacnet_event_server.Redis.Objects.{load_in}
use bacnet_event_server.Redis.View.{CacheView, put_position}
use bacnet_event_server.Gateway.Cached.{ServerCalls, cached_services}
use bacnet_event_server.Gateway.Effects.{effect, payload_taken}
use bacnet_event_server.Message.Parse.{message_handler_parse}
use bacnet_event_server.Message.Process.{message_handler_process}
use bacnet_event_server.Redis.Positions.{load_position_in, redis_cache_store_stream_position}
use bacnet_event_server.Gateway.Events.{Subscription, Event, find_offset, on_event_received}

-- An event, and the times that the cache and the handler read while it is handled.
pub record Arrival : Type 0 where
  pub event : Event
  pub clock : ℕ
  pub now : ℕ

-- What the messages make of a view.
module _ {J : Type 0} (cj : CJson J) (fpu : Fpu) (subs : List Subscription) where
  abbrev pub view_parsed : Arrival → Parsed ParsedMessage → CacheView → CacheView
  view_parsed a (err code) v = v
  view_parsed a (ok m) v =
      put_position a.event.subscription_id a.event.stream_revision
        (effect cj fpu a.clock a.now m.payload (find_offset subs a.event.subscription_id) v)

  abbrev pub view_text : Arrival → Option Bytes → CacheView → CacheView
  view_text a none v = v
  view_text a (some text) v = view_parsed a (message_handler_parse cj fpu a.now (some text)) v

  unfoldable pub replayed : List Arrival → CacheView → CacheView
  unfolding effect put_position
  replayed [] v = v
  replayed (a ∷ rest) v = replayed rest (view_text a a.event.text v)

-- The gateway with its cache on the connection.
module _ {J C B : Type 0} (cj : CJson J) (fpu : Fpu) (api : Hiredis C) (server : ServerCalls B)
    (subs : List Subscription) where
  abbrev pub handled : Cache C × B → Arrival → (Cache C × B) × Bool
  handled s a =
      on_event_received cj fpu (cached_services cj fpu api server a.clock) a.now subs s a.event

  unfoldable pub receive_all : Cache C × B → List Arrival → Cache C × B
  receive_all s [] = s
  receive_all s (a ∷ rest) = receive_all (handled s a).0 rest

  -- The message is processed, and the reply to its position is no failure.
  abbrev pub is_kept : Event → (Cache C × B) × Bool → Bool
  is_kept e (s, done) =
      done && (redis_cache_store_stream_position api s.0 e.subscription_id e.stream_revision).1

  abbrev pub is_taken_parsed : Cache C × B → Arrival → Parsed ParsedMessage → Bool
  is_taken_parsed s a (err code) = true
  is_taken_parsed s a (ok m) =
      let offset = find_offset subs a.event.subscription_id in
      payload_taken api s.0 m.payload offset
      && is_kept a.event
          (message_handler_process (cached_services cj fpu api server a.clock) a.now s m offset)

  abbrev pub is_taken_text : Cache C × B → Arrival → Option Bytes → Bool
  is_taken_text s a none = true
  is_taken_text s a (some text) =
      is_taken_parsed s a (message_handler_parse cj fpu a.now (some text))

  -- No call fails on the way: each text is no message, or is processed with its position stored, and no DEL is
  -- refused.
  unfoldable pub all_taken : Cache C × B → List Arrival → Bool
  all_taken s [] = true
  all_taken s (a ∷ rest) = is_taken_text s a a.event.text && all_taken (handled s a).0 rest

-- Revisions of 64 bits.
abbrev pub RevisionsFit : List Arrival → Type 0
RevisionsFit [] = Unit
RevisionsFit (a ∷ rest) = (a.event.stream_revision < 2 ^ 64) × RevisionsFit rest

-- What the connection answers before the run.
abbrev pub view_of : {J C : Type 0} → CJson J → Fpu → Hiredis C → Bytes → C → CacheView
view_of cj fpu api prefix c = record {
  objects = λ t i. (load_in cj fpu api prefix t i c).1;
  positions = λ id. (load_position_in api prefix id c).1;
}

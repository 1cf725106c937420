-- ===== src/Gateway/Replayed.antt =====
-- The cache after a run of events: on_event_received of src/main.c against a replay of the messages.
use bacnet_event_server.Base.{
  ℕ, ◌^◌, ◌<◌, ◌≡◌, refl, sym, ap, subst, ◌∙◌, Bool, true, false, ◌&&◌, List, [], ◌∷◌, Option, none,
  some, Bytes, arith,
}
use bacnet_event_server.Base.Json.{CJson}
use bacnet_event_server.Base.Words.{Fpu}
use bacnet_event_server.Message.Model.{ParsedMessage}
use bacnet_event_server.Message.Fields.{Parsed, ok, err}
use bacnet_event_server.Redis.Client.{Hiredis, RedisConfig, Cache}
use bacnet_event_server.Redis.Objects.{prefix_of}
use bacnet_event_server.Redis.Laws.{RedisLaws}
use bacnet_event_server.Redis.Room.{IsShort}
use bacnet_event_server.Redis.View.{CacheView, put_position, Shows}
use bacnet_event_server.Redis.Live.{live, Holds, live-load_object}
use bacnet_event_server.Gateway.Cached.{ServerCalls, cached_services}
use bacnet_event_server.Gateway.Effects.{ConvertsToWords, effect, payload_taken}
use bacnet_event_server.Message.Parse.{message_handler_parse}
use bacnet_event_server.Message.Process.{message_handler_process}
use bacnet_event_server.Message.WellFormed.{parse-IsWellFormed}
use bacnet_event_server.Redis.View.{store_position_in-Shows}
use bacnet_event_server.Redis.Objects.{redis_cache_load_object}
use bacnet_event_server.Redis.Positions.{
  store_position_in, redis_cache_store_stream_position, redis_cache_load_stream_position,
}
use bacnet_event_server.Redis.Live.{live-store_position, live-load_position}
use bacnet_event_server.Gateway.Durable.{process-Holds}
use bacnet_event_server.Gateway.Events.{
  Subscription, Event, find_offset, finish_event, handle_parsed, handle_text, on_event_received,
}
use bacnet_event_server.Gateway.Arrivals.{
  Arrival, view_parsed, view_text, replayed, handled, receive_all, is_kept, is_taken_parsed,
  is_taken_text, all_taken, RevisionsFit, view_of,
}
use bacnet_event_server.Redis.Steady.{SetRules, IsKept}

both : (p q : Bool) → p && q ≡ true → (p ≡ true) × (q ≡ true)
both p q h = (ground (arith, h), ground (arith, h))

module _ {J C B : Type 0} (cj : CJson J) (fpu : Fpu) (api : Hiredis C) (laws : RedisLaws api)
    (Start : Type 0) (rules : Start → SetRules api) (server : ServerCalls B)
    (settings : RedisConfig) (short : IsShort (prefix_of settings)) (subs : List Subscription) where
  finish-Holds :
      (clock : ℕ) (e : Event) (v : CacheView) (w : (Cache C × B) × Bool)
      → e.stream_revision < 2 ^ 64
      → (w.1 ≡ true → Holds cj fpu api Start settings w.0.0 v)
      → is_kept cj fpu api server subs e w ≡ true
      → Holds cj fpu api Start settings
          (finish_event (cached_services cj fpu api server clock) e w).0.0
          (put_position e.subscription_id e.stream_revision v)
  unfolding cached_services Holds
  finish-Holds clock e v (s, false) h holds kept = absurd (ground (arith, kept))
  finish-Holds clock e v ((cache, b), true) h holds kept =
      let (c, same, shows) = holds refl in
      let stored =
        live-store_position api settings c shows.up e.subscription_id e.stream_revision in
      let same_store =
        ap (λ x. redis_cache_store_stream_position api x e.subscription_id e.stream_revision) same
        ∙ stored in
      (
        (store_position_in api (prefix_of settings) e.subscription_id e.stream_revision c).0,
        ap (λ r. r.0) same_store,
        store_position_in-Shows cj fpu api laws Start rules (prefix_of settings) short c v
            e.subscription_id e.stream_revision shows h (sym (ap (λ r. r.1) same_store) ∙ kept),
      )

  parsed-Holds :
      (a : Arrival) (c : C) (b : B) (v : CacheView) (text : Bytes) (p : Parsed ParsedMessage)
      → ConvertsToWords fpu
      → a.event.stream_revision < 2 ^ 64
      → Shows cj fpu api Start (prefix_of settings) c v
      → message_handler_parse cj fpu a.now (some text) ≡ p
      → is_taken_parsed cj fpu api server subs (live settings c, b) a p ≡ true
      → Holds cj fpu api Start settings
          (handle_parsed cj fpu
            (cached_services cj fpu api server a.clock)
            a.now
            subs
            (live settings c, b)
            a.event
            p).0.0
          (view_parsed cj fpu subs a p v)
  unfolding Holds
  parsed-Holds a c b v text (err code) words h shows e taken = (c, refl, shows)
  parsed-Holds a c b v text (ok m) words h shows e taken =
      let offset = find_offset subs a.event.subscription_id in
      let parts =
        both (payload_taken api (live settings c) m.payload offset)
          (is_kept cj fpu api server subs a.event (
            message_handler_process (cached_services cj fpu api server a.clock) a.now
              (live settings c, b) m offset))
          taken in
      let formed = parse-IsWellFormed cj fpu a.now (some text) m e in
      finish-Holds a.clock a.event (effect cj fpu a.clock a.now m.payload offset v)
        (message_handler_process (cached_services cj fpu api server a.clock) a.now
          (live settings c, b) m offset)
        h
        (unfold message_handler_process in
          process-Holds cj fpu api laws Start rules server settings short a.clock a.now c b v
            m.payload offset words shows formed.payload_well_formed parts.0)
        parts.1

  text-Holds :
      (a : Arrival) (c : C) (b : B) (v : CacheView) (text : Option Bytes)
      → ConvertsToWords fpu
      → a.event.stream_revision < 2 ^ 64
      → Shows cj fpu api Start (prefix_of settings) c v
      → is_taken_text cj fpu api server subs (live settings c, b) a text ≡ true
      → Holds cj fpu api Start settings
          (handle_text cj fpu
            (cached_services cj fpu api server a.clock)
            a.now
            subs
            (live settings c, b)
            a.event
            text).0.0
          (view_text cj fpu subs a text v)
  unfolding Holds handle_text
  text-Holds a c b v none words h shows taken = (c, refl, shows)
  text-Holds a c b v (some text) words h shows taken =
      parsed-Holds a c b v text (message_handler_parse cj fpu a.now (some text)) words h shows refl
        taken

  pub receive_all-Holds :
      (arrivals : List Arrival) (s : Cache C × B) (v : CacheView)
      → ConvertsToWords fpu
      → RevisionsFit arrivals
      → Holds cj fpu api Start settings s.0 v
      → all_taken cj fpu api server subs s arrivals ≡ true
      → Holds cj fpu api Start settings
          (receive_all cj fpu api server subs s arrivals).0
          (replayed cj fpu subs arrivals v)
  unfolding Holds receive_all replayed all_taken on_event_received
  receive_all-Holds [] s v words fit holds taken = holds
  receive_all-Holds (a ∷ rest) (cache, b) v words fit (c, same, shows) taken =
      let parts = both _ _ taken in
      let first = text-Holds a c b v a.event.text words fit.0 shows (
        subst (λ x. is_taken_text cj fpu api server subs (x, b) a a.event.text ≡ true) same
          parts.0) in
      receive_all-Holds rest (handled cj fpu api server subs (cache, b) a).0
        (view_text cj fpu subs a a.event.text v) words fit.1
        (subst
          (λ x.
            Holds cj fpu api Start settings (handled cj fpu api server subs (x, b) a).0.0
              (view_text cj fpu subs a a.event.text v))
          (sym same) first)
        parts.1

module _ {J C : Type 0} (cj : CJson J) (fpu : Fpu) (api : Hiredis C) (Start : Type 0)
    (settings : RedisConfig) where
  pub view_of-Holds :
      (c : C)
      → api.err c ≡ false
      → (Start → IsKept api (prefix_of settings) c)
      → Holds cj fpu api Start settings
          (live settings c)
          (view_of cj fpu api (prefix_of settings) c)
  unfolding Holds
  view_of-Holds c up kept =
      (c, refl, record { up = up; objects = λ t i h k. refl; kept = kept; positions = λ id. refl })

  Holds-loads :
      (cache : Cache C) (v : CacheView) (t i : ℕ) (id : Bytes)
      → Holds cj fpu api Start settings cache v
      → t < 2 ^ 32
      → i < 2 ^ 32
      → ((redis_cache_load_object cj fpu api cache t i).1 ≡ v.objects t i)
        × ((redis_cache_load_stream_position api cache id).1 ≡ v.positions id)
  unfolding Holds
  Holds-loads cache v t i id (c, same, shows) h k =
      subst
        (λ x.
          ((redis_cache_load_object cj fpu api x t i).1 ≡ v.objects t i)
          × ((redis_cache_load_stream_position api x id).1 ≡ v.positions id))
        (sym same)
        (
          ap (λ r. r.1) (live-load_object api settings c shows.up cj fpu t i)
              ∙ shows.objects t i h k,
          live-load_position api settings c shows.up id ∙ shows.positions id,
        )

module _ {J C B : Type 0} (cj : CJson J) (fpu : Fpu) (api : Hiredis C) (laws : RedisLaws api)
    (server : ServerCalls B) (settings : RedisConfig) (subs : List Subscription) where
  -- On a connection that is up, under a key prefix of at most 480 bytes, after any run of events whose
  -- messages are all processed with success, with no DEL refused, and whose positions are all stored, loading an object of a 32-bit
  -- type and instance gives what the messages, replayed in order on what was stored before, leave for it, and
  -- loading a position gives the revision of the last message of that subscription, or what was there before.
  pub receive_all-replayed :
      (c : C) (b : B) (arrivals : List Arrival) (t i : ℕ) (id : Bytes)
      → ConvertsToWords fpu
      → IsShort (prefix_of settings)
      → api.err c ≡ false
      → RevisionsFit arrivals
      → all_taken cj fpu api server subs (live settings c, b) arrivals ≡ true
      → t < 2 ^ 32
      → i < 2 ^ 32
      → let cache = (receive_all cj fpu api server subs (live settings c, b) arrivals).0 in
        let v = replayed cj fpu subs arrivals (view_of cj fpu api (prefix_of settings) c) in
        ((redis_cache_load_object cj fpu api cache t i).1 ≡ v.objects t i)
        × ((redis_cache_load_stream_position api cache id).1 ≡ v.positions id)
  receive_all-replayed c b arrivals t i id words short up fit taken h k =
      Holds-loads cj fpu api ⊥ settings _ _ t i id
        (receive_all-Holds cj fpu api laws ⊥ (λ s. absurd s) server settings short subs arrivals
          (live settings c, b) _ words fit (view_of-Holds cj fpu api ⊥ settings c up λ s. absurd s)
          taken)
        h k

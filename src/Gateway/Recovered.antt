-- ===== src/Gateway/Recovered.antt =====
-- What recover_from_cache of src/main.c gets to see after a run of events.
use bacnet_event_server.Base.{
  ℕ, ◌^◌, ◌<◌, ◌≡◌, ◌↔◌, refl, sym, ap, subst, ◌∙◌, true, false, List, none, some, Bytes, arith,
}
use bacnet_event_server.Base.Json.{CJson}
use bacnet_event_server.Base.Words.{Fpu}
use bacnet_event_server.Message.Model.{CachedObject}
use bacnet_event_server.Redis.Client.{
  Reply, missing, absent, error, status, string, integer, array, Hiredis, RedisConfig, Cache,
}
use bacnet_event_server.Redis.Objects.{prefix_of}
use bacnet_event_server.Redis.Index.{object_type_max, iterate_in, redis_cache_iterate_objects}
use bacnet_event_server.Redis.Laws.{RedisLaws}
use bacnet_event_server.Redis.Room.{IsShort}
use bacnet_event_server.Redis.View.{CacheView}
use bacnet_event_server.Redis.Live.{live, Holds, live-when_connected}
use bacnet_event_server.Redis.Visited.{IsIn, IsLoaded, iterate-IsLoaded}
use bacnet_event_server.Redis.Steady.{is_array, SetRules, IsKept}
use bacnet_event_server.Gateway.Cached.{ServerCalls}
use bacnet_event_server.Gateway.Effects.{ConvertsToWords}
use bacnet_event_server.Gateway.Events.{Subscription}
use bacnet_event_server.Gateway.Arrivals.{
  Arrival, replayed, receive_all, all_taken, RevisionsFit, view_of,
}
use bacnet_event_server.Gateway.Replayed.{receive_all-Holds, view_of-Holds}

array_of : (r : Reply) → is_array r ≡ true → (ms : List Bytes) × (r ≡ array ms)
array_of (array ms) h = (ms, refl)
array_of missing h = absurd (ground (arith, h))
array_of absent h = absurd (ground (arith, h))
array_of error h = absurd (ground (arith, h))
array_of status h = absurd (ground (arith, h))
array_of (string text) h = absurd (ground (arith, h))
array_of (integer n) h = absurd (ground (arith, h))

-- The iteration over all types succeeds, and visits the object exactly if the view has it under a 32-bit type and
-- instance.
abbrev pub Recovers :
    {J C : Type 0} → CJson J → Fpu → Hiredis C → Cache C → CacheView → CachedObject → Type 0
Recovers cj fpu api cache v o =
    (visited : List CachedObject) × ((redis_cache_iterate_objects cj fpu api cache
        object_type_max).1
      ≡ some visited)
    × (IsIn visited o ↔ ((t i : ℕ) × (t < 2 ^ 32) × (i < 2 ^ 32) × (v.objects t i ≡ some o)))

module _ {J C : Type 0} (cj : CJson J) (fpu : Fpu) (api : Hiredis C) (laws : RedisLaws api)
    (settings : RedisConfig) where
  Holds-Recovers :
      (Start : Type 0) (cache : Cache C) (v : CacheView) (o : CachedObject)
      → Start
      → Holds cj fpu api Start settings cache v
      → Recovers cj fpu api cache v o
  unfolding Holds IsLoaded redis_cache_iterate_objects
  Holds-Recovers Start cache v o start (c, same, shows) =
      let prefix = prefix_of settings in
      let kept = shows.kept start in
      let (ms, answered) = array_of _ kept.is_set in
      let (visited, iterated, both) =
        iterate-IsLoaded cj fpu api laws prefix c ms o kept.indexed answered in
      subst (λ x. Recovers cj fpu api x v o) (sym same)
        (
          visited,
          ap (λ r. r.1)
                (live-when_connected api settings c shows.up none
                  (iterate_in cj fpu api prefix object_type_max))
              ∙ iterated,
          (
            λ found.
                let l = both.0 found in
                (l.0, l.1, l.2, l.3, sym (shows.objects l.0 l.1 l.2 l.3) ∙ l.4),
            λ l. both.1 (l.0, l.1, l.2, l.3, shows.objects l.0 l.1 l.2 l.3 ∙ l.4),
          ),
        )

module _ {J C B : Type 0} (cj : CJson J) (fpu : Fpu) (api : Hiredis C) (laws : RedisLaws api)
    (rules : SetRules api) (server : ServerCalls B) (settings : RedisConfig)
    (subs : List Subscription) where
  -- On a connection that is up, under a key prefix of at most 480 bytes, whose index is kept at the start and
  -- whose Redis does not refuse SADD and SREM: after any run of events whose messages are all processed with
  -- success, with no DEL refused, and whose positions are all stored, the iteration over all types that recovery makes succeeds and
  -- visits exactly the objects that the messages, replayed in order on what was stored before, leave.
  pub receive_all-Recovers :
      (c : C) (b : B) (arrivals : List Arrival) (o : CachedObject)
      → ConvertsToWords fpu
      → IsShort (prefix_of settings)
      → api.err c ≡ false
      → IsKept api (prefix_of settings) c
      → RevisionsFit arrivals
      → all_taken cj fpu api server subs (live settings c, b) arrivals ≡ true
      → Recovers cj fpu api
          (receive_all cj fpu api server subs (live settings c, b) arrivals).0
          (replayed cj fpu subs arrivals (view_of cj fpu api (prefix_of settings) c))
          o
  receive_all-Recovers c b arrivals o words short up kept fit taken =
      let Start = IsKept api (prefix_of settings) c in
      Holds-Recovers cj fpu api laws settings Start _ _ o kept (
        receive_all-Holds cj fpu api laws Start (λ s. rules) server settings short subs arrivals
          (live settings c, b) _ words fit (view_of-Holds cj fpu api Start settings c up λ s. s)
          taken)

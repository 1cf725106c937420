-- ===== src/Gateway/After.antt =====
-- What the handlers of src/message_handler.c do once src/redis_cache.c has answered.
use bacnet_event_server.Base.{ℕ, ◌≡◌, refl, Bool, true, false, not, if◌then◌else◌, arith}
use bacnet_event_server.Base.Json.{CJson}
use bacnet_event_server.Base.Words.{Fpu, add32}
use bacnet_event_server.Message.Model.{CachedObject, ObjectDefinition, ValueUpdate}
use bacnet_event_server.Message.Process.{
  cached_object, is_value_type, process_object_definition, process_value_update,
}
use bacnet_event_server.Redis.Client.{Hiredis, Cache}
use bacnet_event_server.Redis.Objects.{redis_cache_store_object, redis_cache_update_value}
use bacnet_event_server.Gateway.Cached.{ServerCalls, behind, cached_services}

-- The part of each handler after the cache has answered.
module _ {C B : Type 0} (server : ServerCalls B) where
  unfoldable pub after_store : CachedObject → B → Cache C × Bool → (Cache C × B) × Bool
  after_store o b (cache, true) = behind cache (server.create_object b o)
  after_store o b (cache, false) = ((cache, b), false)

  unfoldable pub after_update : ValueUpdate → ℕ → B → Cache C × Bool → (Cache C × B) × Bool
  after_update u i b (cache, true) =
      behind cache
        (server.update_value b u.object_type i u.value_type u.present_value u.status_flags)
  after_update u i b (cache, false) = ((cache, b), false)

  pub after_store-cache :
      (o : CachedObject) (b : B) (w : Cache C × Bool)
      → (after_store o b w).1 ≡ true
      → (w.1 ≡ true) × ((after_store o b w).0.0 ≡ w.0)
  unfolding after_store
  after_store-cache o b (cache, true) h = (refl, refl)
  after_store-cache o b (cache, false) h = absurd (ground (arith, h))

  pub after_update-cache :
      (u : ValueUpdate) (i : ℕ) (b : B) (w : Cache C × Bool)
      → (after_update u i b w).1 ≡ true
      → (w.1 ≡ true) × ((after_update u i b w).0.0 ≡ w.0)
  unfolding after_update
  after_update-cache u i b (cache, true) h = (refl, refl)
  after_update-cache u i b (cache, false) h = absurd (ground (arith, h))

module _ {J C B : Type 0} (cj : CJson J) (fpu : Fpu) (api : Hiredis C)
    (server : ServerCalls B) where
  pub definition-after :
      (clock now : ℕ) (cache : Cache C) (b : B) (d : ObjectDefinition) (offset : ℕ)
      → process_object_definition (cached_services cj fpu api server clock) now (cache, b) d offset
        ≡ after_store server
            (cached_object now d offset)
            b
            (redis_cache_store_object api fpu cache (cached_object now d offset))
  unfolding process_object_definition cached_services after_store
  definition-after clock now cache b d offset =
      split (redis_cache_store_object api fpu cache (cached_object now d offset))
    where
      split :
          (w : Cache C × Bool)
          → (if w.1
              then behind w.0 (server.create_object b (cached_object now d offset))
              else ((w.0, b), false))
            ≡ after_store server (cached_object now d offset) b w
      split (cache', true) = refl
      split (cache', false) = refl

  pub update-after :
      (clock now : ℕ) (cache : Cache C) (b : B) (u : ValueUpdate) (offset : ℕ)
      → (process_value_update (cached_services cj fpu api server clock) now (cache, b) u offset).1
        ≡ true
      → process_value_update (cached_services cj fpu api server clock) now (cache, b) u offset
        ≡ after_update server u (add32 u.object_instance offset) b (
            redis_cache_update_value cj fpu api clock cache u.object_type
              (add32 u.object_instance offset)
              u.value_type
              u.present_value
              u.status_flags
              now)
  unfolding process_value_update cached_services after_update
  update-after clock now cache b u offset h =
      split (is_value_type u.value_type)
        (redis_cache_update_value cj fpu api clock cache u.object_type
          (add32 u.object_instance offset) u.value_type u.present_value u.status_flags now)
        h
    where
      split :
          (typed : Bool) (w : Cache C × Bool)
          → (if not typed
              then ((cache, b), false)
              else if w.1
              then behind w.0 (
                  server.update_value b u.object_type
                    (add32 u.object_instance offset)
                    u.value_type
                    u.present_value
                    u.status_flags)
              else ((w.0, b), false)).1
            ≡ true
          → (if not typed
              then ((cache, b), false)
              else if w.1
              then behind w.0 (
                  server.update_value b u.object_type
                    (add32 u.object_instance offset)
                    u.value_type
                    u.present_value
                    u.status_flags)
              else ((w.0, b), false))
            ≡ after_update server u (add32 u.object_instance offset) b w
      split false w e = absurd (ground (arith, e))
      split true (cache', true) e = refl
      split true (cache', false) e = refl

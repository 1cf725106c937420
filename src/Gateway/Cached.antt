-- ===== src/Gateway/Cached.antt =====
-- The services of src/message_handler.c and src/main.c as src/redis_cache.c implements them, next to a
-- server that keeps the functions of include/bacnet_server.h.
use bacnet_event_server.Base.{ℕ, Bool, Option, Bytes}
use bacnet_event_server.Base.Json.{CJson}
use bacnet_event_server.Base.Words.{Fpu}
use bacnet_event_server.Message.Model.{StatusFlags, CachedObject}
use bacnet_event_server.Message.Process.{Services}
use bacnet_event_server.Redis.Client.{Hiredis, Cache}
use bacnet_event_server.Redis.Objects.{
  redis_cache_store_object, redis_cache_update_value, redis_cache_delete_object,
}
use bacnet_event_server.Redis.Positions.{
  redis_cache_store_stream_position, redis_cache_load_stream_position,
}

-- The functions of include/bacnet_server.h that the message handler calls; true stands for 0.
pub record ServerCalls (B : Type 0) : Type 0 where
  pub create_object : B → CachedObject → B × Bool
  pub update_value :
      B → (object_type object_instance value_type word : ℕ) → Option StatusFlags → B × Bool
  pub delete_object : B → (object_type object_instance : ℕ) → B
  pub update_device : B → (name description location : Option Bytes) → B

abbrev pub beside : {A B R : Type 0} → B → A × R → (A × B) × R
beside b (a, r) = ((a, b), r)

abbrev pub behind : {A B R : Type 0} → A → B × R → (A × B) × R
behind a (b, r) = ((a, b), r)

-- `clock` is what time(NULL) answers to the cache.
module _ {J C B : Type 0} (cj : CJson J) (fpu : Fpu) (api : Hiredis C)
    (server : ServerCalls B) where
  unfoldable pub cached_services : ℕ → Services (Cache C × B)
  unfolding redis_cache_store_object redis_cache_update_value redis_cache_delete_object
      redis_cache_store_stream_position redis_cache_load_stream_position
  cached_services clock = record {
    store_object = λ s o. beside s.1 (redis_cache_store_object api fpu s.0 o);
    update_cached = λ s t i value_type word flags stamp.
        beside s.1 (redis_cache_update_value cj fpu api clock s.0 t i value_type word flags stamp);
    delete_cached = λ s t i. ((redis_cache_delete_object api s.0 t i).0, s.1);
    create_object = λ s o. behind s.0 (server.create_object s.1 o);
    update_value = λ s t i value_type word flags.
        behind s.0 (server.update_value s.1 t i value_type word flags);
    delete_object = λ s t i. (s.0, server.delete_object s.1 t i);
    update_device =
        λ s name description location. (s.0, server.update_device s.1 name description location);
    store_position = λ s id p. ((redis_cache_store_stream_position api s.0 id p).0, s.1);
    load_position = λ s id. (redis_cache_load_stream_position api s.0 id).1;
  }

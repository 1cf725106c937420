-- ===== src/Redis/Live.antt =====
-- A cache of src/redis_cache.c that is connected, and what its operations leave in view.
use bacnet_event_server.Base.{ℕ, ◌≡◌, refl, ap, true, false, none, some, Bytes}
use bacnet_event_server.Base.Json.{CJson}
use bacnet_event_server.Base.Words.{Fpu}
use bacnet_event_server.Message.Model.{CachedObject}
use bacnet_event_server.Redis.Client.{Hiredis, RedisConfig, Cache, is_connected}
use bacnet_event_server.Redis.Objects.{
  prefix_of, when_connected, store_in, delete_in, load_in, redis_cache_store_object,
  redis_cache_delete_object, redis_cache_load_object,
}
use bacnet_event_server.Redis.Positions.{
  store_position_in, load_position_in, redis_cache_store_stream_position,
  redis_cache_load_stream_position,
}
use bacnet_event_server.Redis.View.{CacheView, Shows}

-- The cache with the connection `c`.
abbrev pub live : {C : Type 0} → RedisConfig → C → Cache C
live config c = record { context = some c; config = config; connected = true }

module _ {J C : Type 0} (cj : CJson J) (fpu : Fpu) (api : Hiredis C) (Start : Type 0)
    (config : RedisConfig) where
  -- The cache is connected, and loading from it gives what the view says.
  unfoldable pub Holds : Cache C → CacheView → Type 0
  Holds cache v = (c : C) × (cache ≡ live config c) × Shows cj fpu api Start (prefix_of config) c v

module _ {C : Type 0} (api : Hiredis C) (config : RedisConfig) (c : C)
    (up : api.err c ≡ false) where
  pub live-when_connected :
      {A : Type 0} (failed : A) (f : C → C × A)
      → when_connected api (live config c) failed f ≡ (live config (f c).0, (f c).1)
  unfolding is_connected
  live-when_connected failed f = rw up refl

  pub live-store_object :
      (fpu : Fpu) (o : CachedObject)
      → redis_cache_store_object api fpu (live config c) o ≡ (
        live config (store_in api fpu (prefix_of config) o c).0,
        (store_in api fpu (prefix_of config) o c).1,
      )
  unfolding redis_cache_store_object
  live-store_object fpu o = live-when_connected false (store_in api fpu (prefix_of config) o)

  pub live-delete_object :
      (t i : ℕ)
      → redis_cache_delete_object api (live config c) t i ≡ (
        live config (delete_in api (prefix_of config) t i c).0,
        (delete_in api (prefix_of config) t i c).1,
      )
  unfolding redis_cache_delete_object
  live-delete_object t i = live-when_connected false (delete_in api (prefix_of config) t i)

  pub live-load_object :
      {J : Type 0} (cj : CJson J) (fpu : Fpu) (t i : ℕ)
      → redis_cache_load_object cj fpu api (live config c) t i ≡ (
        live config (load_in cj fpu api (prefix_of config) t i c).0,
        (load_in cj fpu api (prefix_of config) t i c).1,
      )
  unfolding redis_cache_load_object
  live-load_object cj fpu t i = live-when_connected none (load_in cj fpu api (prefix_of config) t i)

  pub live-store_position :
      (id : Bytes) (p : ℕ)
      → redis_cache_store_stream_position api (live config c) id p ≡ (
        live config (store_position_in api (prefix_of config) id p c).0,
        (store_position_in api (prefix_of config) id p c).1,
      )
  unfolding redis_cache_store_stream_position
  live-store_position id p =
      live-when_connected false (store_position_in api (prefix_of config) id p)

  pub live-load_position :
      (id : Bytes)
      → (redis_cache_load_stream_position api (live config c) id).1
        ≡ (load_position_in api (prefix_of config) id c).1
  unfolding redis_cache_load_stream_position
  live-load_position id =
      ap (λ w. w.1) (live-when_connected none (load_position_in api (prefix_of config) id))

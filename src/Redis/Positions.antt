-- ===== src/Redis/Positions.antt =====
-- Stream positions, the device's configuration and published changes in src/redis_cache.c.
use bacnet_event_server.Base.{
  ℕ, ◌-◌, ◌^◌, min, Bool, true, false, [], ◌∷◌, Option, none, some, Bytes, codes, not,
}
use bacnet_event_server.Base.Decimal.{print_nat}
use bacnet_event_server.Base.Int.{ℤ, pos, negsuc}
use bacnet_event_server.Base.Scan.{scan_int}
use bacnet_event_server.Message.Fields.{or_default}
use bacnet_event_server.Redis.Client.{
  hset, hget, hmset, publish, Reply, string, is_failure, Hiredis, Cache,
}
use bacnet_event_server.Redis.Keys.{make_key, member_text}
use bacnet_event_server.Redis.Objects.{prefix_of, when_connected, with_reply, run_command}

-- strtoull with base 10: 0 without digits, the greatest number when it does not fit, and a number with a
-- minus sign modulo 2^64.
abbrev pub unsigned_of : Option (ℤ × Bytes) → ℕ
unsigned_of none = 0
unsigned_of (some (pos n, s)) = min n (2 ^ 64 - 1)
unsigned_of (some (negsuc n, s)) = 2 ^ 64 - 1 - min n (2 ^ 64 - 2)

unfoldable pub strtoull : Bytes → ℕ
strtoull s = unsigned_of (scan_int s)

abbrev pub read_position : Reply → Option ℕ
read_position (string text) = some (strtoull text)
read_position _ = none

module _ {C : Type 0} (api : Hiredis C) where
  abbrev pub is_done : C × Reply → C × Bool
  is_done (c, r) = (c, not (is_failure r))

  unfoldable pub store_position_in : Bytes → Bytes → ℕ → C → C × Bool
  store_position_in prefix id p c =
      is_done (api.command c (hset (make_key prefix (codes "stream:positions")) id (print_nat p)))

  -- redis_cache_store_stream_position.
  unfoldable pub redis_cache_store_stream_position : Cache C → Bytes → ℕ → Cache C × Bool
  unfolding store_position_in
  redis_cache_store_stream_position cache id p =
      when_connected api cache false (store_position_in (prefix_of cache.config) id p)

  unfoldable pub load_position_in : Bytes → Bytes → C → C × Option ℕ
  unfolding strtoull
  load_position_in prefix id c =
      with_reply read_position
        (api.command c (hget (make_key prefix (codes "stream:positions")) id))

  -- redis_cache_load_stream_position.
  unfoldable pub redis_cache_load_stream_position : Cache C → Bytes → Cache C × Option ℕ
  unfolding load_position_in
  redis_cache_load_stream_position cache id =
      when_connected api cache none (load_position_in (prefix_of cache.config) id)

  -- redis_cache_store_device_config; a missing text is stored empty.
  unfoldable pub store_device_in : Bytes → (name description location : Option Bytes) → C → C × Bool
  store_device_in prefix name description location c = is_done (
      api.command c (
        hmset (make_key prefix (codes "device:config")) (
          (codes "name", or_default name [])
          ∷ (codes "description", or_default description [])
          ∷ (codes "location", or_default location [])
          ∷ [])))

  unfoldable pub redis_cache_store_device_config :
      Cache C → (name description location : Option Bytes) → Cache C × Bool
  unfolding store_device_in
  redis_cache_store_device_config cache name description location =
      when_connected api cache false
        (store_device_in (prefix_of cache.config) name description location)

  -- redis_cache_publish_value_change.
  unfoldable pub publish_in : Bytes → ℕ → ℕ → C → C × Bool
  publish_in prefix t i c = (
    run_command api c (publish (make_key prefix (codes "events:value_change")) (member_text t i)),
    true,
  )

  unfoldable pub redis_cache_publish_value_change : Cache C → ℕ → ℕ → Cache C × Bool
  unfolding publish_in
  redis_cache_publish_value_change cache t i =
      when_connected api cache false (publish_in (prefix_of cache.config) t i)

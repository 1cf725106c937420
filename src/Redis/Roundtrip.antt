-- ===== src/Redis/Roundtrip.antt =====
-- Stream positions of src/redis_cache.c, stored and loaded.
use bacnet_event_server.Base.{
  ℕ, ◌^◌, ◌<◌, ◌≡◌, true, false, some, Bytes, codes, str_eq, str_eq_sound, if◌then◌else◌, arith,
  Bool-cases, inl, inr,
}
use bacnet_event_server.Base.Decimal.{print_nat}
use bacnet_event_server.Redis.Client.{
  Command, hset, hget, string, is_failure, Hiredis, Cache, is_connected, is_connected-context,
}
use bacnet_event_server.Redis.Keys.{make_key, scan_int-end}
use bacnet_event_server.Redis.Objects.{prefix_of}
use bacnet_event_server.Redis.Positions.{
  strtoull, store_position_in, load_position_in, redis_cache_store_stream_position,
  redis_cache_load_stream_position,
}

-- What Redis documents of hashes, on a connection that stays up: HSET sets one field and no other.
pub record HashLaws {C : Type 0} (api : Hiredis C) : Type 0 where
  pub stays_up :
      (c : C) (command : Command) → api.err c ≡ false → api.err (api.command c command).0 ≡ false
  pub hget_hset :
      (c : C) (key field value : Bytes)
      → is_failure (api.command c (hset key field value)).1 ≡ false
      → (api.command (api.command c (hset key field value)).0 (hget key field)).1 ≡ string value
  pub hget_hset_other :
      (c : C) (key field value other : Bytes)
      → str_eq field other ≡ false
      → (api.command (api.command c (hset key field value)).0 (hget key other)).1
        ≡ (api.command c (hget key other)).1

-- A number that is printed is read back, if it fits 64 bits.
strtoull-print : (p : ℕ) → p < 2 ^ 64 → strtoull (print_nat p) ≡ p
unfolding strtoull
strtoull-print p h = rw (scan_int-end p) (omega arith)

module _ {C : Type 0} (api : Hiredis C) (laws : HashLaws api) where
  pub load-store_position_in :
      (prefix id id' : Bytes) (p : ℕ) (c : C)
      → p < 2 ^ 64
      → (store_position_in api prefix id p c).1 ≡ true
      → (load_position_in api prefix id' (store_position_in api prefix id p c).0).1
        ≡ (if str_eq id id' then some p else (load_position_in api prefix id' c).1)
  unfolding store_position_in load_position_in
  load-store_position_in prefix id id' p c h stored =
      let key = make_key prefix (codes "stream:positions") in
      let text = print_nat p in
      let done : is_failure (api.command c (hset key id text)).1 ≡ false = ground (arith, stored) in
      elim (Bool-cases (str_eq id id')) [
        | inl same ↦
            let equal = str_eq_sound id id' same in
            ground (arith, same, equal, laws.hget_hset c key id text done, strtoull-print p h)
        | inr differ ↦ ground (arith, differ, laws.hget_hset_other c key id text id' differ)
      ]

  -- On a connected cache whose Redis keeps its documentation: a 64-bit position that is stored with
  -- success is loaded for its subscription, and the other subscriptions keep what they had.
  pub load-store_position :
      (cache : Cache C) (id id' : Bytes) (p : ℕ)
      → is_connected api cache ≡ true
      → p < 2 ^ 64
      → (redis_cache_store_stream_position api cache id p).1 ≡ true
      → (redis_cache_load_stream_position api
          (redis_cache_store_stream_position api cache id p).0
          id').1
        ≡ (if str_eq id id' then some p else (redis_cache_load_stream_position api cache id').1)
  unfolding redis_cache_store_stream_position redis_cache_load_stream_position is_connected
      store_position_in
  load-store_position cache id id' p up h stored =
      let (c, (found, sound)) = is_connected-context api cache up in
      let prefix = prefix_of cache.config in
      let live : cache.connected ≡ true = ground arith in
      let key = make_key prefix (codes "stream:positions") in
      ground (
        arith,
        found,
        sound,
        live,
        stored,
        laws.stays_up c (hset key id (print_nat p)) sound,
        load-store_position_in prefix id id' p c h,
      )

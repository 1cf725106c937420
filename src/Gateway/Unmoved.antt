-- ===== src/Gateway/Unmoved.antt =====
-- The handlers of src/message_handler.c over the cache of src/redis_cache.c leave the stream positions alone,
-- also when a command fails.
use bacnet_event_server.Base.{
  ℕ, ◌≡◌, refl, ap, ◌∙◌, Bool, true, false, Option, none, some, Bytes, codes, Bool-cases, inl, inr,
}
use bacnet_event_server.Base.Json.{CJson}
use bacnet_event_server.Base.Words.{Fpu, add32}
use bacnet_event_server.Message.Model.{
  StatusFlags, CachedObject, ObjectDefinition, ValueUpdate, ObjectDelete, Payload, definition,
  update, delete, config,
}
use bacnet_event_server.Message.Process.{
  cached_object, is_value_type, process_payload, process_object_definition, process_value_update,
  process_object_delete, process_device_config,
}
use bacnet_event_server.Redis.Client.{
  Command, set, get, del, sadd, srem, is_failure, Hiredis, RedisConfig, Cache,
}
use bacnet_event_server.Redis.Keys.{make_key, make_object_key, member_text}
use bacnet_event_server.Redis.Objects.{
  prefix_of, object_text, updated_object, store_in, delete_in, load_in, store_updated,
  redis_cache_store_object, redis_cache_update_value,
}
use bacnet_event_server.Redis.Positions.{load_position_in}
use bacnet_event_server.Redis.Frame.{store_in-up, delete_in-up}
use bacnet_event_server.Redis.Laws.{RedisLaws, writes, StringLaws-of}
use bacnet_event_server.Redis.Room.{IsShort, object-ne-positions, index-ne-positions}
use bacnet_event_server.Redis.Live.{live, live-store_object, live-delete_object, live-load_object}
use bacnet_event_server.Gateway.Cached.{ServerCalls, cached_services}
use bacnet_event_server.Gateway.After.{after_store, definition-after}

module _ {C : Type 0} (api : Hiredis C) (settings : RedisConfig) where
  -- The two connections answer alike for every position.
  abbrev pub LoadsAlike : C → C → Type 0
  LoadsAlike c c' =
      (id : Bytes)
      → (load_position_in api (prefix_of settings) id c').1
        ≡ (load_position_in api (prefix_of settings) id c).1

  -- The cache is connected, and its positions are those of the connection `c`.
  abbrev pub Unmoved : C → Cache C → Type 0
  Unmoved c cache = (c' : C) × (cache ≡ live settings c') × (api.err c' ≡ false) × LoadsAlike c c'

module _ {J C B : Type 0} (cj : CJson J) (fpu : Fpu) (api : Hiredis C) (laws : RedisLaws api)
    (server : ServerCalls B) (settings : RedisConfig) (short : IsShort (prefix_of settings)) where
  command-LoadsAlike :
      (c : C) (command : Command)
      → writes command (make_key (prefix_of settings) (codes "stream:positions")) ≡ false
      → LoadsAlike api settings c (api.command c command).0
  unfolding load_position_in
  command-LoadsAlike c command h id =
      rw (laws.hget_frame c command (make_key (prefix_of settings) (codes "stream:positions")) id h)
        refl

  store_in-LoadsAlike :
      (o : CachedObject) (c : C)
      → LoadsAlike api settings c (store_in api fpu (prefix_of settings) o c).0
  unfolding store_in writes
  store_in-LoadsAlike o c id =
      let prefix = prefix_of settings in
      let first =
        set (make_object_key prefix o.object_type o.object_instance) (object_text fpu o) in
      let second =
        sadd (make_key prefix (codes "objects:index"))
          (member_text o.object_type o.object_instance) in
      let c1 = (api.command c first).0 in
      let before =
        command-LoadsAlike c first
          (object-ne-positions prefix short o.object_type o.object_instance) id in
      let after = command-LoadsAlike c1 second (index-ne-positions prefix short) id in
      elim (Bool-cases (is_failure (api.command c first).1)) [
        | inl failed ↦ rw failed before
        | inr taken ↦ rw taken (after ∙ before)
      ]

  store-Unmoved :
      (o : CachedObject) (c : C)
      → api.err c ≡ false
      → Unmoved api settings c (redis_cache_store_object api fpu (live settings c) o).0
  store-Unmoved o c up = (
    (store_in api fpu (prefix_of settings) o c).0,
    ap (λ r. r.0) (live-store_object api settings c up fpu o),
    store_in-up cj fpu api (StringLaws-of api laws) (prefix_of settings) o c up,
    store_in-LoadsAlike o c,
  )

  stored_back-Unmoved :
      (f : CachedObject → CachedObject) (c : C) (x : Option CachedObject)
      → api.err c ≡ false
      → Unmoved api settings c (store_updated cj fpu api f (live settings c, x)).0
  stored_back-Unmoved f c none up = (c, refl, up, λ id. refl)
  stored_back-Unmoved f c (some o) up = store-Unmoved (f o) c up

  update_value-Unmoved :
      (clock : ℕ) (c : C) (t i value_type word : ℕ) (flags : Option StatusFlags) (stamp : ℕ)
      → api.err c ≡ false
      → Unmoved api settings c
          (redis_cache_update_value cj fpu api clock
            (live settings c)
            t
            i
            value_type
            word
            flags
            stamp).0
  unfolding redis_cache_update_value updated_object load_in writes
  update_value-Unmoved clock c t i value_type word flags stamp up =
      let f = updated_object clock value_type word flags stamp in
      let read = get (make_object_key (prefix_of settings) t i) in
      let x = (load_in cj fpu api (prefix_of settings) t i c).1 in
      let c1 = (api.command c read).0 in
      let (c2, same, still, alike) = stored_back-Unmoved f c1 x (laws.stays_up c read up) in
      (
        c2,
        ap (λ w. (store_updated cj fpu api f w).0) (live-load_object api settings c up cj fpu t i)
            ∙ same,
        still,
        λ id. alike id ∙ command-LoadsAlike c read refl id,
      )

  after_store-state :
      (o : CachedObject) (b : B) (w : Cache C × Bool) → (after_store server o b w).0.0 ≡ w.0
  unfolding after_store
  after_store-state o b (cache, true) = refl
  after_store-state o b (cache, false) = refl

  definition-Unmoved :
      (clock now : ℕ) (c : C) (b : B) (d : ObjectDefinition) (offset : ℕ)
      → api.err c ≡ false
      → Unmoved api settings c
          (process_object_definition
            (cached_services cj fpu api server clock)
            now
            (live settings c, b)
            d
            offset).0.0
  definition-Unmoved clock now c b d offset up =
      let o = cached_object now d offset in
      let (c', same, still, alike) = store-Unmoved o c up in
      (
        c',
        ap (λ r. r.0.0) (definition-after cj fpu api server clock now (live settings c) b d offset)
            ∙ after_store-state o b (redis_cache_store_object api fpu (live settings c) o)
            ∙ same,
        still,
        alike,
      )

  update-Unmoved :
      (clock now : ℕ) (c : C) (b : B) (u : ValueUpdate) (offset : ℕ)
      → api.err c ≡ false
      → Unmoved api settings c
          (process_value_update
            (cached_services cj fpu api server clock)
            now
            (live settings c, b)
            u
            offset).0.0
  unfolding process_value_update cached_services
  update-Unmoved clock now c b u offset up =
      let i = add32 u.object_instance offset in
      let w =
        redis_cache_update_value cj fpu api clock (live settings c) u.object_type i u.value_type
          u.present_value u.status_flags now in
      let moved =
        update_value-Unmoved clock c u.object_type i u.value_type u.present_value u.status_flags now
          up in
      elim (Bool-cases (is_value_type u.value_type)) [
        | inr unknown ↦ rw unknown (c, refl, up, λ id. refl)
        | inl known ↦ elim (Bool-cases w.1) [
          | inl cached ↦ rw (known, cached) moved
          | inr failed ↦ rw (known, failed) moved
        ]
      ]

  delete-Unmoved :
      (clock : ℕ) (c : C) (b : B) (d : ObjectDelete) (offset : ℕ)
      → api.err c ≡ false
      → Unmoved api settings c
          (process_object_delete
            (cached_services cj fpu api server clock)
            (live settings c, b)
            d
            offset).0.0
  unfolding process_object_delete cached_services delete_in writes
  delete-Unmoved clock c b d offset up =
      let prefix = prefix_of settings in
      let t = d.object_type in
      let i = add32 d.object_instance offset in
      let first = del (make_object_key prefix t i) in
      let second = srem (make_key prefix (codes "objects:index")) (member_text t i) in
      (
        (delete_in api prefix t i c).0,
        ap (λ r. r.0) (live-delete_object api settings c up t i),
        delete_in-up cj fpu api (StringLaws-of api laws) prefix t i c up,
        λ id.
            command-LoadsAlike (api.command c first).0 second (index-ne-positions prefix short) id
            ∙ command-LoadsAlike c first (object-ne-positions prefix short t i) id,
      )

  pub process-Unmoved :
      (clock now : ℕ) (c : C) (b : B) (p : Payload) (offset : ℕ)
      → api.err c ≡ false
      → Unmoved api settings c
          (process_payload
            (cached_services cj fpu api server clock)
            now
            (live settings c, b)
            p
            offset).0.0
  unfolding process_payload
  process-Unmoved clock now c b (definition d) offset up =
      definition-Unmoved clock now c b d offset up
  process-Unmoved clock now c b (update u) offset up = update-Unmoved clock now c b u offset up
  process-Unmoved clock now c b (delete d) offset up = delete-Unmoved clock c b d offset up
  process-Unmoved clock now c b (config g) offset up =
      unfold process_device_config cached_services in (c, refl, up, λ id. refl)

-- ===== src/Gateway/Durable.antt =====
-- The cache of src/redis_cache.c after the handlers of src/message_handler.c.
use bacnet_event_server.Base.{
  ℕ, ◌^◌, ◌<◌, ◌≡◌, refl, sym, ap, subst, ◌∙◌, true, Option, none, some, arith,
}
use bacnet_event_server.Base.Json.{CJson}
use bacnet_event_server.Base.Words.{Fpu, add32}
use bacnet_event_server.Message.Model.{
  CachedObject, ObjectDefinition, ValueUpdate, ObjectDelete, Payload, definition, update, delete,
  config,
}
use bacnet_event_server.Message.Process.{
  cached_object, process_payload, process_object_definition, process_value_update,
  process_object_delete, process_device_config,
}
use bacnet_event_server.Message.WellFormed.{PayloadIsWellFormed, is_listed}
use bacnet_event_server.Redis.Client.{Hiredis, RedisConfig}
use bacnet_event_server.Redis.Objects.{
  prefix_of, updated_object, store_in, delete_in, load_in, store_updated, redis_cache_store_object,
  redis_cache_update_value,
}
use bacnet_event_server.Redis.Laws.{RedisLaws}
use bacnet_event_server.Redis.Room.{IsShort}
use bacnet_event_server.Redis.View.{
  CacheView, put_object, Shows, store_in-Shows, delete_in-Shows, load_in-Shows,
}
use bacnet_event_server.Redis.Live.{
  live, Holds, live-store_object, live-delete_object, live-load_object,
}
use bacnet_event_server.Gateway.Cached.{ServerCalls, cached_services}
use bacnet_event_server.Gateway.Effects.{
  ConvertsToWords, put_stored, put_updated, effect, read_reply-words,
}
use bacnet_event_server.Gateway.After.{
  after_store-cache, after_update-cache, definition-after, update-after,
}
use bacnet_event_server.Redis.Steady.{SetRules}
use bacnet_event_server.Redis.Deletion.{deletion_taken}
use bacnet_event_server.Gateway.Effects.{payload_taken}

-- The object types of the protocol are 32-bit words.
listed-word : (t : ℕ) → is_listed t ≡ true → t < 2 ^ 32
listed-word t h = ground arith

module _ {J C B : Type 0} (cj : CJson J) (fpu : Fpu) (api : Hiredis C) (laws : RedisLaws api)
    (Start : Type 0) (rules : Start → SetRules api) (server : ServerCalls B)
    (settings : RedisConfig) (short : IsShort (prefix_of settings)) where
  store-Holds :
      (c : C) (v : CacheView) (o : CachedObject)
      → Shows cj fpu api Start (prefix_of settings) c v
      → o.object_type < 2 ^ 32
      → o.object_instance < 2 ^ 32
      → (redis_cache_store_object api fpu (live settings c) o).1 ≡ true
      → Holds cj fpu api Start settings
          (redis_cache_store_object api fpu (live settings c) o).0
          (put_stored cj fpu o v)
  unfolding Holds put_stored
  store-Holds c v o shows h k stored =
      let now_live = live-store_object api settings c shows.up fpu o in
      let w = store_in api fpu (prefix_of settings) o c in
      (
        w.0,
        ap (λ r. r.0) now_live,
        store_in-Shows cj fpu api laws Start rules (prefix_of settings) short c v o shows h k
            (sym (ap (λ r. r.1) now_live) ∙ stored),
      )

  definition-Holds :
      (clock now : ℕ) (c : C) (b : B) (v : CacheView) (d : ObjectDefinition) (offset : ℕ)
      → Shows cj fpu api Start (prefix_of settings) c v
      → d.object_type < 2 ^ 32
      → (process_object_definition
          (cached_services cj fpu api server clock)
          now
          (live settings c, b)
          d
          offset).1
        ≡ true
      → Holds cj fpu api Start settings
          (process_object_definition
            (cached_services cj fpu api server clock)
            now
            (live settings c, b)
            d
            offset).0.0
          (put_stored cj fpu (cached_object now d offset) v)
  unfolding cached_object
  definition-Holds clock now c b v d offset shows h done =
      let o = cached_object now d offset in
      let after = definition-after cj fpu api server clock now (live settings c) b d offset in
      let stored = redis_cache_store_object api fpu (live settings c) o in
      let (ok_stored, same) =
        after_store-cache server o b stored (sym (ap (λ r. r.1) after) ∙ done) in
      subst (λ cache. Holds cj fpu api Start settings cache (put_stored cj fpu o v))
        (sym (ap (λ r. r.0.0) after ∙ same)) (store-Holds c v o shows h (omega arith) ok_stored)

  stored_back :
      (f : CachedObject → CachedObject) (c : C) (v : CacheView) (x : Option CachedObject)
      → Shows cj fpu api Start (prefix_of settings) c v
      → ((o : CachedObject)
          → x ≡ some o
          → ((f o).object_type < 2 ^ 32) × ((f o).object_instance < 2 ^ 32))
      → (store_updated cj fpu api f (live settings c, x)).1 ≡ true
      → Holds cj fpu api Start settings
          (store_updated cj fpu api f (live settings c, x)).0
          (put_updated cj fpu f x v)
  stored_back f c v none shows words done = absurd (ground (arith, done))
  stored_back f c v (some o) shows words done =
      let (h, k) = words o refl in store-Holds c v (f o) shows h k done

  update-Holds :
      (clock now : ℕ) (c : C) (b : B) (v : CacheView) (u : ValueUpdate) (offset : ℕ)
      → ConvertsToWords fpu
      → Shows cj fpu api Start (prefix_of settings) c v
      → u.object_type < 2 ^ 32
      → (process_value_update
          (cached_services cj fpu api server clock)
          now
          (live settings c, b)
          u
          offset).1
        ≡ true
      → Holds cj fpu api Start settings
          (process_value_update
            (cached_services cj fpu api server clock)
            now
            (live settings c, b)
            u
            offset).0.0
          (put_updated cj fpu
            (updated_object clock u.value_type u.present_value u.status_flags now)
            (v.objects u.object_type (add32 u.object_instance offset))
            v)
  unfolding redis_cache_update_value updated_object load_in
  update-Holds clock now c b v u offset words shows h done =
      let t = u.object_type in
      let i = add32 u.object_instance offset in
      let i_word : i < 2 ^ 32 = omega arith in
      let f = updated_object clock u.value_type u.present_value u.status_flags now in
      let x = (load_in cj fpu api (prefix_of settings) t i c).1 in
      let c1 = (load_in cj fpu api (prefix_of settings) t i c).0 in
      let after = update-after cj fpu api server clock now (live settings c) b u offset done in
      let written =
        redis_cache_update_value cj fpu api clock (live settings c) t i u.value_type u.present_value
          u.status_flags now in
      let (cached, same) =
        after_update-cache server u i b written (sym (ap (λ r. r.1) after) ∙ done) in
      let loaded : written ≡ store_updated cj fpu api f (live settings c1, x) =
        ap (store_updated cj fpu api f) (live-load_object api settings c shows.up cj fpu t i) in
      let kept =
        load_in-Shows cj fpu api laws Start rules (prefix_of settings) short c v t i shows in
      let back =
        stored_back f c1 v x kept (λ o e. read_reply-words cj fpu t i _ o words h i_word e)
          (sym (ap (λ r. r.1) loaded) ∙ cached) in
      subst
        (λ y.
          Holds cj fpu api Start settings
            (process_value_update (cached_services cj fpu api server clock) now (live settings c, b)
              u offset).0.0
            (put_updated cj fpu f y v))
        (shows.objects t i h i_word)
        (subst (λ cache. Holds cj fpu api Start settings cache (put_updated cj fpu f x v))
          (sym (ap (λ r. r.0.0) after ∙ same ∙ ap (λ r. r.0) loaded)) back)

  delete-Holds :
      (clock : ℕ) (c : C) (b : B) (v : CacheView) (d : ObjectDelete) (offset : ℕ)
      → Shows cj fpu api Start (prefix_of settings) c v
      → d.object_type < 2 ^ 32
      → deletion_taken api (live settings c) d.object_type (add32 d.object_instance offset) ≡ true
      → Holds cj fpu api Start settings
          (process_object_delete
            (cached_services cj fpu api server clock)
            (live settings c, b)
            d
            offset).0.0
          (put_object d.object_type (add32 d.object_instance offset) none v)
  unfolding Holds process_object_delete cached_services
  delete-Holds clock c b v d offset shows h taken =
      let i = add32 d.object_instance offset in
      (
        (delete_in api (prefix_of settings) d.object_type i c).0,
        ap (λ r. r.0) (live-delete_object api settings c shows.up d.object_type i),
        delete_in-Shows cj fpu api laws Start rules (prefix_of settings) short c v d.object_type i
            shows h (omega arith) (ground (arith, taken)),
      )

  pub process-Holds :
      (clock now : ℕ) (c : C) (b : B) (v : CacheView) (p : Payload) (offset : ℕ)
      → ConvertsToWords fpu
      → Shows cj fpu api Start (prefix_of settings) c v
      → PayloadIsWellFormed p
      → payload_taken api (live settings c) p offset ≡ true
      → (process_payload
          (cached_services cj fpu api server clock)
          now
          (live settings c, b)
          p
          offset).1
        ≡ true
      → Holds cj fpu api Start settings
          (process_payload
            (cached_services cj fpu api server clock)
            now
            (live settings c, b)
            p
            offset).0.0
          (effect cj fpu clock now p offset v)
  unfolding process_payload effect
  process-Holds clock now c b v (definition d) offset words shows formed taken done =
      definition-Holds clock now c b v d offset shows (listed-word d.object_type formed.listed) done
  process-Holds clock now c b v (update u) offset words shows formed taken done =
      update-Holds clock now c b v u offset words shows (listed-word u.object_type formed.listed)
        done
  process-Holds clock now c b v (delete d) offset words shows formed taken done =
      delete-Holds clock c b v d offset shows (listed-word d.object_type formed.listed) taken
  process-Holds clock now c b v (config g) offset words shows formed taken done =
      unfold Holds process_device_config cached_services in (c, refl, shows)

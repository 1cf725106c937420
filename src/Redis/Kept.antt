-- ===== src/Redis/Kept.antt =====
-- What redis_cache_iterate_objects of src/redis_cache.c visits after a run of stores and deletions.
use bacnet_event_server.Base.{
  ℕ, ◌^◌, ◌<◌, ◌≡◌, ◌↔◌, refl, sym, ap, subst, ◌∙◌, Bool, true, false, ◌&&◌, List, [], ◌∷◌, none,
  some, Bytes, codes, All, arith,
}
use bacnet_event_server.Base.Json.{CJson}
use bacnet_event_server.Base.Words.{Fpu}
use bacnet_event_server.Message.Model.{CachedObject}
use bacnet_event_server.Redis.Client.{smembers, array, Hiredis, RedisConfig, Cache}
use bacnet_event_server.Redis.Keys.{make_key}
use bacnet_event_server.Redis.Objects.{
  prefix_of, redis_cache_store_object, redis_cache_delete_object, redis_cache_load_object,
}
use bacnet_event_server.Redis.Frame.{store_in-up, delete_in-up}
use bacnet_event_server.Redis.Index.{object_type_max, iterate_in, redis_cache_iterate_objects}
use bacnet_event_server.Redis.Laws.{RedisLaws, StringLaws-of}
use bacnet_event_server.Redis.Room.{IsShort}
use bacnet_event_server.Redis.Live.{
  live, live-when_connected, live-store_object, live-delete_object, live-load_object,
}
use bacnet_event_server.Redis.Indexed.{SetLaws, is_present, is_member, IsIndexed}
use bacnet_event_server.Redis.Listing.{
  CacheCall, stores, deletes, IsBounded, perform, succeeds, perform-IsIndexed,
}
use bacnet_event_server.Redis.Visited.{IsIn, IsLoaded, iterate-IsLoaded}

module _ {C : Type 0} (fpu : Fpu) (api : Hiredis C) where
  -- The call on the cache.
  abbrev pub call_cache : CacheCall → Cache C → Cache C
  call_cache (stores o) cache = (redis_cache_store_object api fpu cache o).0
  call_cache (deletes t i) cache = (redis_cache_delete_object api cache t i).0

  unfoldable pub call_all : List CacheCall → Cache C → Cache C
  call_all [] cache = cache
  call_all (call ∷ calls) cache = call_all calls (call_cache call cache)

  -- The connection after the calls, and whether every command of them succeeds.
  unfoldable pub perform_all : Bytes → List CacheCall → C → C
  unfolding perform
  perform_all prefix [] c = c
  perform_all prefix (call ∷ calls) c = perform_all prefix calls (perform fpu api prefix call c)

  unfoldable pub all_succeed : Bytes → List CacheCall → C → Bool
  unfolding perform succeeds
  all_succeed prefix [] c = true
  all_succeed prefix (call ∷ calls) c =
      succeeds fpu api prefix call c && all_succeed prefix calls (perform fpu api prefix call c)

module _ {J C : Type 0} (cj : CJson J) (fpu : Fpu) (api : Hiredis C) (laws : RedisLaws api)
    (settings : RedisConfig) where
  perform-up :
      (call : CacheCall) (c : C)
      → api.err c ≡ false
      → api.err (perform fpu api (prefix_of settings) call c) ≡ false
  unfolding perform
  perform-up (stores o) c up =
      store_in-up cj fpu api (StringLaws-of api laws) (prefix_of settings) o c up
  perform-up (deletes t i) c up =
      delete_in-up cj fpu api (StringLaws-of api laws) (prefix_of settings) t i c up

  call-live :
      (call : CacheCall) (c : C)
      → api.err c ≡ false
      → call_cache fpu api call (live settings c)
        ≡ live settings (perform fpu api (prefix_of settings) call c)
  unfolding perform
  call-live (stores o) c up = ap (λ r. r.0) (live-store_object api settings c up fpu o)
  call-live (deletes t i) c up = ap (λ r. r.0) (live-delete_object api settings c up t i)

  call_all-live :
      (calls : List CacheCall) (c : C)
      → api.err c ≡ false
      → (call_all fpu api calls (live settings c)
          ≡ live settings (perform_all fpu api (prefix_of settings) calls c))
        × (api.err (perform_all fpu api (prefix_of settings) calls c) ≡ false)
  unfolding call_all perform_all
  call_all-live [] c up = (refl, up)
  call_all-live (call ∷ calls) c up =
      let (same, still) =
        call_all-live calls (perform fpu api (prefix_of settings) call c) (perform-up call c up) in
      (ap (call_all fpu api calls) (call-live call c up) ∙ same, still)

-- The iteration over all types succeeds, and visits the object exactly if it loads under a 32-bit type and instance.
abbrev pub Visits : {J C : Type 0} → CJson J → Fpu → Hiredis C → Cache C → CachedObject → Type 0
Visits cj fpu api cache o =
    (visited : List CachedObject) × ((redis_cache_iterate_objects cj fpu api cache
        object_type_max).1
      ≡ some visited)
    × (IsIn visited o ↔ (
        (t i : ℕ) × (t < 2 ^ 32)
        × (i < 2 ^ 32)
        × ((redis_cache_load_object cj fpu api cache t i).1 ≡ some o)))

module _ {J C : Type 0} (cj : CJson J) (fpu : Fpu) (api : Hiredis C) (laws : RedisLaws api)
    (sets : SetLaws api) (settings : RedisConfig) where
  perform_all-IsIndexed :
      (calls : List CacheCall) (c : C)
      → IsShort (prefix_of settings)
      → All IsBounded calls
      → all_succeed fpu api (prefix_of settings) calls c ≡ true
      → IsIndexed (is_present api (prefix_of settings) c) (is_member api (prefix_of settings) c)
      → let c' = perform_all fpu api (prefix_of settings) calls c in
        IsIndexed (is_present api (prefix_of settings) c') (is_member api (prefix_of settings) c')
  unfolding perform_all all_succeed
  perform_all-IsIndexed [] c short bounds done indexed = indexed
  perform_all-IsIndexed (call ∷ calls) c short bounds done indexed =
      perform_all-IsIndexed calls (perform fpu api (prefix_of settings) call c) short bounds.1
        (ground (arith, done))
        (perform-IsIndexed fpu api laws sets (prefix_of settings) short call c bounds.0
          (ground (arith, done)) indexed)

  -- On a connection that is up and whose index names exactly the objects that are stored, after any run of
  -- stores and deletions of 32-bit types and instances whose commands all succeed, if SMEMBERS answers an
  -- array, iterating over all types succeeds and visits exactly the objects that loading some 32-bit type and
  -- instance gives. The key prefix has at most 480 bytes.
  pub iterate-call_all :
      (calls : List CacheCall) (c : C) (ms : List Bytes) (o : CachedObject)
      → IsShort (prefix_of settings)
      → api.err c ≡ false
      → IsIndexed (is_present api (prefix_of settings) c) (is_member api (prefix_of settings) c)
      → All IsBounded calls
      → all_succeed fpu api (prefix_of settings) calls c ≡ true
      → (api.command
          (perform_all fpu api (prefix_of settings) calls c)
          (smembers (make_key (prefix_of settings) (codes "objects:index")))).1
        ≡ array ms
      → Visits cj fpu api (call_all fpu api calls (live settings c)) o
  unfolding redis_cache_iterate_objects IsLoaded
  iterate-call_all calls c ms o short up indexed bounds done answered =
      let prefix = prefix_of settings in
      let c' = perform_all fpu api prefix calls c in
      let (same, still) = call_all-live cj fpu api laws settings calls c up in
      let (visited, iterated, both) =
        iterate-IsLoaded cj fpu api laws prefix c' ms o
          (perform_all-IsIndexed calls c short bounds done indexed) answered in
      let loading =
        λ (t i : ℕ). ap (λ r. r.1) (live-load_object api settings c' still cj fpu t i) in
      subst (λ cache. Visits cj fpu api cache o) (sym same)
        (
          visited,
          ap (λ r. r.1)
                (live-when_connected api settings c' still none
                  (iterate_in cj fpu api prefix object_type_max))
              ∙ iterated,
          (
            λ found. let l = both.0 found in (l.0, l.1, l.2, l.3, loading l.0 l.1 ∙ l.4),
            λ l. both.1 (l.0, l.1, l.2, l.3, sym (loading l.0 l.1) ∙ l.4),
          ),
        )

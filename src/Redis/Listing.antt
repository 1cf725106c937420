-- ===== src/Redis/Listing.antt =====
-- The index of src/redis_cache.c after redis_cache_store_object and redis_cache_delete_object.
use bacnet_event_server.Base.{
  ℕ, ◌^◌, ◌<◌, ◌≡◌, Bool, true, false, ◌&&◌, not, Bytes, codes, str_eq, if◌then◌else◌, ◌==◌, arith,
  Bool-cases, inl, inr,
}
use bacnet_event_server.Base.Words.{Fpu}
use bacnet_event_server.Message.Model.{CachedObject}
use bacnet_event_server.Redis.Client.{set, del, sadd, srem, is_failure, Hiredis}
use bacnet_event_server.Redis.Keys.{make_key, make_object_key, member_text}
use bacnet_event_server.Redis.Objects.{object_text, store_in, delete_in}
use bacnet_event_server.Redis.Frame.{index_differs, keys_differ}
use bacnet_event_server.Redis.Laws.{RedisLaws, writes}
use bacnet_event_server.Redis.Room.{IsShort, short-IsKey, object-ne-index}
use bacnet_event_server.Redis.Indexed.{SetLaws, is_present, is_member, IsIndexed, put-IsIndexed}

-- A call of redis_cache_store_object or of redis_cache_delete_object.
pub data CacheCall : Type 0 where
  stores : CachedObject → CacheCall
  deletes : (object_type object_instance : ℕ) → CacheCall

abbrev pub IsBounded : CacheCall → Type 0
IsBounded (stores o) = (o.object_type < 2 ^ 32) × (o.object_instance < 2 ^ 32)
IsBounded (deletes t i) = (t < 2 ^ 32) × (i < 2 ^ 32)

module _ {C : Type 0} (fpu : Fpu) (api : Hiredis C) (prefix : Bytes) where
  unfoldable pub perform : CacheCall → C → C
  unfolding store_in delete_in
  perform (stores o) c = (store_in api fpu prefix o c).0
  perform (deletes t i) c = (delete_in api prefix t i c).0

  -- Whether the commands of the call succeed, SADD and SREM too, whose replies the code does not look at.
  unfoldable pub succeeds : CacheCall → C → Bool
  succeeds (stores o) c =
      let (c', r) =
        api.command c
          (set (make_object_key prefix o.object_type o.object_instance) (object_text fpu o)) in
      not (is_failure r)
      && not (
          is_failure
            (api.command c' (
              sadd (make_key prefix (codes "objects:index"))
                (member_text o.object_type o.object_instance))).1)
  succeeds (deletes t i) c =
      let (c', r) = api.command c (del (make_object_key prefix t i)) in
      not (is_failure r)
      && not (
          is_failure
            (api.command c' (srem (make_key prefix (codes "objects:index")) (member_text t i))).1)

module _ {C : Type 0} (fpu : Fpu) (api : Hiredis C) (laws : RedisLaws api) (sets : SetLaws api)
    (prefix : Bytes) (short : IsShort prefix) where
  stores-present :
      (o : CachedObject) (c : C) (t i : ℕ)
      → IsBounded (stores o)
      → succeeds fpu api prefix (stores o) c ≡ true
      → t < 2 ^ 32
      → i < 2 ^ 32
      → is_present api prefix (perform fpu api prefix (stores o) c) t i ≡ (
          if o.object_type == t && o.object_instance == i
          then true
          else is_present api prefix c t i)
  unfolding perform succeeds store_in writes
  stores-present o c t i bounds done h k =
      let key = make_object_key prefix o.object_type o.object_instance in
      let other = make_object_key prefix t i in
      let first = set key (object_text fpu o) in
      let index = make_key prefix (codes "objects:index") in
      let second = sadd index (member_text o.object_type o.object_instance) in
      let c1 = (api.command c first).0 in
      let good : is_failure (api.command c first).1 ≡ false = ground (arith, done) in
      let whole = short-IsKey prefix o.object_type o.object_instance short bounds.0 bounds.1 in
      let other_whole = short-IsKey prefix t i short h k in
      let kept = laws.get_frame c1 second other (index_differs prefix t i other_whole) in
      elim (Bool-cases (o.object_type == t && o.object_instance == i)) [
        | inl same ↦
            let equal : key ≡ other = ground (arith, same) in
            ground (arith, same, good, kept, equal, laws.get_set c key (object_text fpu o) good)
        | inr differ ↦ ground (
          arith,
          differ,
          good,
          kept,
          laws.get_frame c first other
              (keys_differ prefix o.object_type o.object_instance t i whole other_whole differ),
        )
      ]

  stores-member :
      (o : CachedObject) (c : C) (m : Bytes)
      → IsBounded (stores o)
      → succeeds fpu api prefix (stores o) c ≡ true
      → is_member api prefix (perform fpu api prefix (stores o) c) m ≡ (
          if str_eq (member_text o.object_type o.object_instance) m
          then true
          else is_member api prefix c m)
  unfolding perform succeeds store_in writes
  stores-member o c m bounds done =
      let key = make_object_key prefix o.object_type o.object_instance in
      let first = set key (object_text fpu o) in
      let index = make_key prefix (codes "objects:index") in
      let member = member_text o.object_type o.object_instance in
      let c1 = (api.command c first).0 in
      let good : is_failure (api.command c first).1 ≡ false = ground (arith, done) in
      let added : is_failure (api.command c1 (sadd index member)).1 ≡ false =
        ground (arith, done) in
      let before =
        sets.smembers_frame c first index
          (object-ne-index prefix o.object_type o.object_instance short bounds.0 bounds.1) in
      ground (arith, good, before, sets.smembers_sadd c1 index member m added)

  deletes-present :
      (t i : ℕ) (c : C) (t' i' : ℕ)
      → IsBounded (deletes t i)
      → succeeds fpu api prefix (deletes t i) c ≡ true
      → t' < 2 ^ 32
      → i' < 2 ^ 32
      → is_present api prefix (perform fpu api prefix (deletes t i) c) t' i'
        ≡ (if t == t' && i == i' then false else is_present api prefix c t' i')
  unfolding perform succeeds delete_in writes
  deletes-present t i c t' i' bounds done h k =
      let key = make_object_key prefix t i in
      let other = make_object_key prefix t' i' in
      let index = make_key prefix (codes "objects:index") in
      let good : is_failure (api.command c (del key)).1 ≡ false = ground (arith, done) in
      let c1 = (api.command c (del key)).0 in
      let whole = short-IsKey prefix t i short bounds.0 bounds.1 in
      let other_whole = short-IsKey prefix t' i' short h k in
      let kept =
        laws.get_frame c1 (srem index (member_text t i)) other
          (index_differs prefix t' i' other_whole) in
      elim (Bool-cases (t == t' && i == i')) [
        | inl same ↦
            let equal : key ≡ other = ground (arith, same) in
            ground (arith, same, kept, equal, laws.get_del c key good)
        | inr differ ↦ ground (
          arith,
          differ,
          kept,
          laws.get_frame c (del key) other (keys_differ prefix t i t' i' whole other_whole differ),
        )
      ]

  deletes-member :
      (t i : ℕ) (c : C) (m : Bytes)
      → IsBounded (deletes t i)
      → succeeds fpu api prefix (deletes t i) c ≡ true
      → is_member api prefix (perform fpu api prefix (deletes t i) c) m
        ≡ (if str_eq (member_text t i) m then false else is_member api prefix c m)
  unfolding perform succeeds delete_in writes
  deletes-member t i c m bounds done =
      let key = make_object_key prefix t i in
      let index = make_key prefix (codes "objects:index") in
      let c1 = (api.command c (del key)).0 in
      let taken : is_failure (api.command c1 (srem index (member_text t i))).1 ≡ false =
        ground (arith, done) in
      let before =
        sets.smembers_frame c (del key) index
          (object-ne-index prefix t i short bounds.0 bounds.1) in
      ground (arith, before, sets.smembers_srem c1 index (member_text t i) m taken)

  pub perform-IsIndexed :
      (call : CacheCall) (c : C)
      → IsBounded call
      → succeeds fpu api prefix call c ≡ true
      → IsIndexed (is_present api prefix c) (is_member api prefix c)
      → IsIndexed
          (is_present api prefix (perform fpu api prefix call c))
          (is_member api prefix (perform fpu api prefix call c))
  perform-IsIndexed (stores o) c bounds done =
      put-IsIndexed _ _ _ _ true o.object_type o.object_instance bounds.0 bounds.1
        (λ t i h k. stores-present o c t i bounds done h k) (λ m. stores-member o c m bounds done)
  perform-IsIndexed (deletes t i) c bounds done =
      put-IsIndexed _ _ _ _ false t i bounds.0 bounds.1
        (λ t' i' h k. deletes-present t i c t' i' bounds done h k)
        (λ m. deletes-member t i c m bounds done)

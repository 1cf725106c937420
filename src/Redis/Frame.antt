-- ===== src/Redis/Frame.antt =====
-- Storing and deleting one object in src/redis_cache.c, seen by loading every object.
pub mod Apart
unfoldable pub use Apart.*
use bacnet_event_server.Base.{
  ℕ, zero, suc, ◌+◌, ◌^◌, ◌<◌, ◌≤◌, ◌≡◌, ◌≢◌, true, false, ◌&&◌, [], ◌∷◌, ◌++◌, none, Bytes, codes,
  str_eq, str_eq_sound, if◌then◌else◌, arith, length, take, Bool-cases, inl, inr, ◌==◌,
}
use mathlib.Core.Option
use bacnet_event_server.Base.Json.{CJson}
use bacnet_event_server.Base.Words.{Fpu}
use bacnet_event_server.Message.Model.{CachedObject}
use bacnet_event_server.Redis.Client.{
  Command, set, get, del, sadd, srem, string, absent, is_failure, Hiredis, Cache, is_connected,
  is_connected-context,
}
use bacnet_event_server.Redis.Keys.{
  make_key, make_object_key, make_object_key-injective, IsWhole, member_text,
}
use bacnet_event_server.Redis.Objects.{
  object_text, prefix_of, store_in, delete_in, load_in, read_object, redis_cache_store_object,
  redis_cache_delete_object, redis_cache_load_object,
}

-- What Redis documents of these commands, on a connection that stays up: SET replaces the value of its
-- key, DEL removes it, and no command changes what GET answers for another key.
pub record StringLaws {C : Type 0} (api : Hiredis C) : Type 0 where
  pub stays_up :
      (c : C) (command : Command) → api.err c ≡ false → api.err (api.command c command).0 ≡ false
  pub get_set :
      (c : C) (key value : Bytes)
      → is_failure (api.command c (set key value)).1 ≡ false
      → (api.command (api.command c (set key value)).0 (get key)).1 ≡ string value
  pub get_del :
      (c : C) (key : Bytes)
      → is_failure (api.command c (del key)).1 ≡ false
      → (api.command (api.command c (del key)).0 (get key)).1 ≡ absent
  pub get_set_other :
      (c : C) (key value other : Bytes)
      → str_eq key other ≡ false
      → (api.command (api.command c (set key value)).0 (get other)).1
        ≡ (api.command c (get other)).1
  pub get_del_other :
      (c : C) (key other : Bytes)
      → str_eq key other ≡ false
      → (api.command (api.command c (del key)).0 (get other)).1 ≡ (api.command c (get other)).1
  pub get_sadd_other :
      (c : C) (key member other : Bytes)
      → str_eq key other ≡ false
      → (api.command (api.command c (sadd key member)).0 (get other)).1
        ≡ (api.command c (get other)).1
  pub get_srem_other :
      (c : C) (key member other : Bytes)
      → str_eq key other ≡ false
      → (api.command (api.command c (srem key member)).0 (get other)).1
        ≡ (api.command c (get other)).1

module _ {J C : Type 0} (cj : CJson J) (fpu : Fpu) (api : Hiredis C) (laws : StringLaws api) where
  -- What the load of one object answers after the store of another or the same.
  pub load-store_in :
      (prefix : Bytes) (o : CachedObject) (t i : ℕ) (c : C)
      → IsKey prefix o.object_type o.object_instance
      → IsKey prefix t i
      → (store_in api fpu prefix o c).1 ≡ true
      → (load_in cj fpu api prefix t i (store_in api fpu prefix o c).0).1 ≡ (
          if o.object_type == t && o.object_instance == i
          then Option.map (read_object cj fpu t i) (cj.parse (object_text fpu o))
          else (load_in cj fpu api prefix t i c).1)
  unfolding store_in load_in
  load-store_in prefix o t i c k k' stored =
      let key = make_object_key prefix o.object_type o.object_instance in
      let other = make_object_key prefix t i in
      let text = object_text fpu o in
      let done : is_failure (api.command c (set key text)).1 ≡ false = ground (arith, stored) in
      let index = make_key prefix (codes "objects:index") in
      let member = member_text o.object_type o.object_instance in
      let c1 = (api.command c (set key text)).0 in
      let kept = laws.get_sadd_other c1 index member other (index_differs prefix t i k') in
      elim (Bool-cases (o.object_type == t && o.object_instance == i)) [
        | inl same ↦
            let equal : key ≡ other = ground (arith, same) in
            ground (arith, same, done, kept, equal, laws.get_set c key text done)
        | inr differ ↦ ground (
          arith,
          differ,
          done,
          kept,
          laws.get_set_other c key text other
              (keys_differ prefix o.object_type o.object_instance t i k k' differ),
        )
      ]

  pub load-delete_in :
      (prefix : Bytes) (t i t' i' : ℕ) (c : C)
      → IsKey prefix t i
      → IsKey prefix t' i'
      → is_failure (api.command c (del (make_object_key prefix t i))).1 ≡ false
      → (load_in cj fpu api prefix t' i' (delete_in api prefix t i c).0).1
        ≡ (if t == t' && i == i' then none else (load_in cj fpu api prefix t' i' c).1)
  unfolding delete_in load_in
  load-delete_in prefix t i t' i' c k k' done =
      let key = make_object_key prefix t i in
      let other = make_object_key prefix t' i' in
      let index = make_key prefix (codes "objects:index") in
      let c1 = (api.command c (del key)).0 in
      let kept =
        laws.get_srem_other c1 index (member_text t i) other (index_differs prefix t' i' k') in
      elim (Bool-cases (t == t' && i == i')) [
        | inl same ↦
            let equal : key ≡ other = ground (arith, same) in
            ground (arith, same, kept, equal, laws.get_del c key done)
        | inr differ ↦ ground (
          arith,
          differ,
          kept,
          laws.get_del_other c key other (keys_differ prefix t i t' i' k k' differ),
        )
      ]

  pub store_in-up :
      (prefix : Bytes) (o : CachedObject) (c : C)
      → api.err c ≡ false
      → api.err (store_in api fpu prefix o c).0 ≡ false
  unfolding store_in
  store_in-up prefix o c up =
      let first =
        set (make_object_key prefix o.object_type o.object_instance) (object_text fpu o) in
      let second =
        sadd (make_key prefix (codes "objects:index"))
          (member_text o.object_type o.object_instance) in
      let c1 = (api.command c first).0 in
      let up1 = laws.stays_up c first up in ground (arith, up1, laws.stays_up c1 second up1)

  pub delete_in-up :
      (prefix : Bytes) (t i : ℕ) (c : C)
      → api.err c ≡ false
      → api.err (delete_in api prefix t i c).0 ≡ false
  unfolding delete_in
  delete_in-up prefix t i c up =
      let first = del (make_object_key prefix t i) in
      let second = srem (make_key prefix (codes "objects:index")) (member_text t i) in
      laws.stays_up (api.command c first).0 second (laws.stays_up c first up)

  -- On a connected cache whose Redis keeps its documentation: after an object is stored with success,
  -- loading its type and instance gives what the stored text parses to, and any other load answers as
  -- before. The types and instances are 32-bit words and the key prefix leaves room for the keys.
  pub load-store_object :
      (cache : Cache C) (o : CachedObject) (t i : ℕ)
      → is_connected api cache ≡ true
      → IsKey (prefix_of cache.config) o.object_type o.object_instance
      → IsKey (prefix_of cache.config) t i
      → (redis_cache_store_object api fpu cache o).1 ≡ true
      → (redis_cache_load_object cj fpu api (redis_cache_store_object api fpu cache o).0 t i).1 ≡ (
          if o.object_type == t && o.object_instance == i
          then Option.map (read_object cj fpu t i) (cj.parse (object_text fpu o))
          else (redis_cache_load_object cj fpu api cache t i).1)
  unfolding redis_cache_store_object redis_cache_load_object is_connected
  load-store_object cache o t i up k k' stored =
      let (c, (found, sound)) = is_connected-context api cache up in
      let prefix = prefix_of cache.config in
      let live : cache.connected ≡ true = ground arith in
      ground (
        arith,
        found,
        sound,
        live,
        stored,
        store_in-up prefix o c sound,
        load-store_in prefix o t i c k k',
      )

-- ===== src/Redis/Steady.antt =====
-- The index of src/redis_cache.c while no command on it is refused.
use bacnet_event_server.Base.{
  ℕ, ◌^◌, ◌<◌, ◌≡◌, sym, ap, ◌∙◌, Bool, true, false, Bytes, codes, arith,
}
use bacnet_event_server.Base.Words.{Fpu}
use bacnet_event_server.Message.Model.{CachedObject}
use bacnet_event_server.Redis.Client.{
  Command, set, del, smembers, sadd, srem, Reply, array, is_failure, Hiredis,
}
use bacnet_event_server.Redis.Keys.{make_key, make_object_key, member_text}
use bacnet_event_server.Redis.Objects.{object_text, store_in, delete_in}
use bacnet_event_server.Redis.Laws.{RedisLaws, writes}
use bacnet_event_server.Redis.Room.{IsShort, object-ne-index}
use bacnet_event_server.Redis.Indexed.{
  is_string, reply_contains, SetLaws, is_present, is_member, IsIndexed,
}
use bacnet_event_server.Redis.Listing.{stores, deletes, perform, succeeds, perform-IsIndexed}

abbrev pub is_array : Reply → Bool
is_array (array ms) = true
is_array _ = false

-- What Redis documents of sets when it has room: on a connection that is up, SADD and SREM of a key that holds a
-- set, or nothing, are not refused, and it holds a set afterwards.
pub record SetRules {C : Type 0} (api : Hiredis C) : Type 0 where
  pub laws : SetLaws api
  pub sadd_taken :
      (c : C) (key m : Bytes)
      → api.err c ≡ false
      → is_array (api.command c (smembers key)).1 ≡ true
      → is_failure (api.command c (sadd key m)).1 ≡ false
  pub srem_taken :
      (c : C) (key m : Bytes)
      → api.err c ≡ false
      → is_array (api.command c (smembers key)).1 ≡ true
      → is_failure (api.command c (srem key m)).1 ≡ false
  pub array_sadd :
      (c : C) (key m : Bytes)
      → is_failure (api.command c (sadd key m)).1 ≡ false
      → is_array (api.command (api.command c (sadd key m)).0 (smembers key)).1 ≡ true
  pub array_srem :
      (c : C) (key m : Bytes)
      → is_failure (api.command c (srem key m)).1 ≡ false
      → is_array (api.command (api.command c (srem key m)).0 (smembers key)).1 ≡ true

-- The index is a set, of the names of the objects that are stored.
pub record IsKept {C : Type 0} (api : Hiredis C) (prefix : Bytes) (c : C) : Type 0 where
  pub indexed : IsIndexed (is_present api prefix c) (is_member api prefix c)
  pub is_set :
      is_array (api.command c (smembers (make_key prefix (codes "objects:index")))).1 ≡ true

module _ {C : Type 0} (api : Hiredis C) (laws : RedisLaws api) (rules : SetRules api)
    (prefix : Bytes) (short : IsShort prefix) where
  pub store_in-IsKept :
      (fpu : Fpu) (o : CachedObject) (c : C)
      → api.err c ≡ false
      → o.object_type < 2 ^ 32
      → o.object_instance < 2 ^ 32
      → (store_in api fpu prefix o c).1 ≡ true
      → IsKept api prefix c
      → IsKept api prefix (store_in api fpu prefix o c).0
  unfolding store_in succeeds perform writes
  store_in-IsKept fpu o c up h k stored kept =
      let first =
        set (make_object_key prefix o.object_type o.object_instance) (object_text fpu o) in
      let index = make_key prefix (codes "objects:index") in
      let member = member_text o.object_type o.object_instance in
      let c1 = (api.command c first).0 in
      let good : is_failure (api.command c first).1 ≡ false = ground (arith, stored) in
      let same =
        rules.laws.smembers_frame c first index
          (object-ne-index prefix o.object_type o.object_instance short h k) in
      let taken =
        rules.sadd_taken c1 index member (laws.stays_up c first up)
          (ap is_array same ∙ kept.is_set) in
      let done : succeeds fpu api prefix (stores o) c ≡ true = ground (arith, good, taken) in
      record {
        indexed =
            perform-IsIndexed fpu api laws rules.laws prefix short (stores o) c (h, k) done
              kept.indexed;
        is_set = rw good (rules.array_sadd c1 index member taken);
      }

  pub delete_in-IsKept :
      (fpu : Fpu) (t i : ℕ) (c : C)
      → api.err c ≡ false
      → t < 2 ^ 32
      → i < 2 ^ 32
      → is_failure (api.command c (del (make_object_key prefix t i))).1 ≡ false
      → IsKept api prefix c
      → IsKept api prefix (delete_in api prefix t i c).0
  unfolding delete_in succeeds perform writes
  delete_in-IsKept fpu t i c up h k good kept =
      let first = del (make_object_key prefix t i) in
      let index = make_key prefix (codes "objects:index") in
      let c1 = (api.command c first).0 in
      let same = rules.laws.smembers_frame c first index (object-ne-index prefix t i short h k) in
      let taken =
        rules.srem_taken c1 index (member_text t i) (laws.stays_up c first up)
          (ap is_array same ∙ kept.is_set) in
      let done : succeeds fpu api prefix (deletes t i) c ≡ true = ground (arith, good, taken) in
      record {
        indexed =
            perform-IsIndexed fpu api laws rules.laws prefix short (deletes t i) c (h, k) done
              kept.indexed;
        is_set = rules.array_srem c1 index (member_text t i) taken;
      }

  -- A command that writes neither an object nor the index.
  pub unwritten-IsKept :
      (command : Command) (c : C)
      → ((t i : ℕ) → writes command (make_object_key prefix t i) ≡ false)
      → writes command (make_key prefix (codes "objects:index")) ≡ false
      → IsKept api prefix c
      → IsKept api prefix (api.command c command).0
  unwritten-IsKept command c objects index kept =
      let same =
        rules.laws.smembers_frame c command (make_key prefix (codes "objects:index")) index in
      let present = λ (t i : ℕ).
        ap is_string (laws.get_frame c command (make_object_key prefix t i) (objects t i)) in
      record {
        indexed = record {
          sound = λ m e.
              let name = kept.indexed.sound m (sym (ap (λ r. reply_contains r m) same) ∙ e) in
              record {
                object_type = name.object_type;
                object_instance = name.object_instance;
                type_bounded = name.type_bounded;
                instance_bounded = name.instance_bounded;
                named = name.named;
                there = present name.object_type name.object_instance ∙ name.there;
              };
          complete = λ t i h k e.
              ap (λ r. reply_contains r (member_text t i)) same
              ∙ kept.indexed.complete t i h k (sym (present t i) ∙ e);
        };
        is_set = ap is_array same ∙ kept.is_set;
      }

-- ===== src/Redis/Deletion.antt =====
-- Deleting one object in src/redis_cache.c, seen by loading every object, also when DEL is refused.
use bacnet_event_server.Base.{
  ℕ, ◌≡◌, ◌∙◌, refl, ap, Bool, true, false, ◌&&◌, not, Option, none, some, Bytes, codes,
  if◌then◌else◌, ◌==◌, arith, Bool-cases, inl, inr,
}
use bacnet_event_server.Base.Json.{CJson}
use bacnet_event_server.Base.Words.{Fpu}
use bacnet_event_server.Redis.Client.{
  Command, get, del, string, absent, is_failure, Hiredis, Cache, is_connected, is_connected-context,
}
use bacnet_event_server.Redis.Keys.{make_key, make_object_key, member_text}
use bacnet_event_server.Redis.Objects.{
  prefix_of, delete_in, load_in, redis_cache_delete_object, redis_cache_load_object,
}
use bacnet_event_server.Redis.Client.{hget, Reply, missing, error, status, integer, array}
use bacnet_event_server.Redis.Objects.{read_reply}
use bacnet_event_server.Redis.Frame.{StringLaws, IsKey, index_differs, load-delete_in, delete_in-up}

-- Whether DEL of the object on this connection is not refused.
abbrev pub deletion_on : {C : Type 0} → Hiredis C → Bytes → (t i : ℕ) → Option C → Bool
deletion_on api prefix t i none = false
deletion_on api prefix t i (some c) =
    not (is_failure (api.command c (del (make_object_key prefix t i))).1)

abbrev pub deletion_taken : {C : Type 0} → Hiredis C → Cache C → (t i : ℕ) → Bool
deletion_taken api cache t i = deletion_on api (prefix_of cache.config) t i cache.context

abbrev pub is_missing : Reply → Bool
is_missing missing = true
is_missing _ = false

-- What is documented of failures: redisCommand gives no reply only if the context then holds an error, and a command
-- that Redis answers with an error has changed nothing.
pub record ErrorLaws {C : Type 0} (api : Hiredis C) : Type 0 where
  pub answers :
      (c : C) (command : Command)
      → api.err (api.command c command).0 ≡ false
      → is_missing (api.command c command).1 ≡ false
  pub get_error :
      (c : C) (command : Command) (key : Bytes)
      → (api.command c command).1 ≡ error
      → (api.command (api.command c command).0 (get key)).1 ≡ (api.command c (get key)).1
  pub hget_error :
      (c : C) (command : Command) (key field : Bytes)
      → (api.command c command).1 ≡ error
      → (api.command (api.command c command).0 (hget key field)).1
        ≡ (api.command c (hget key field)).1

pub failed-error : (r : Reply) → is_missing r ≡ false → is_failure r ≡ true → r ≡ error
failed-error missing h k = absurd (ground (arith, h))
failed-error error h k = refl
failed-error absent h k = absurd (ground (arith, k))
failed-error status h k = absurd (ground (arith, k))
failed-error (string text) h k = absurd (ground (arith, k))
failed-error (integer n) h k = absurd (ground (arith, k))
failed-error (array ms) h k = absurd (ground (arith, k))

module _ {J C : Type 0} (cj : CJson J) (fpu : Fpu) (api : Hiredis C) (laws : StringLaws api)
    (errors : ErrorLaws api) where
  load-delete_refused :
      (prefix : Bytes) (t i t' i' : ℕ) (c : C)
      → IsKey prefix t' i'
      → api.err c ≡ false
      → is_failure (api.command c (del (make_object_key prefix t i))).1 ≡ true
      → (load_in cj fpu api prefix t' i' (delete_in api prefix t i c).0).1
        ≡ (load_in cj fpu api prefix t' i' c).1
  unfolding delete_in load_in
  load-delete_refused prefix t i t' i' c k up refused =
      let first = del (make_object_key prefix t i) in
      let other = make_object_key prefix t' i' in
      let c1 = (api.command c first).0 in
      ap (read_reply cj fpu t' i') (
        laws.get_srem_other c1 (make_key prefix (codes "objects:index")) (member_text t i) other
          (index_differs prefix t' i' k)
        ∙ errors.get_error c first other
            (failed-error _ (errors.answers c first (laws.stays_up c first up)) refused))

  -- On a connection that is up and stays up, to a Redis that keeps its documentation, deletion answers success,
  -- whatever Redis answers.
  -- Unless DEL is refused, the object cannot be loaded any more, and any other load answers as before; if it is
  -- refused, every load answers as before, also that of the object. The types and instances are 32-bit words
  -- and the key prefix leaves room for the keys.
  pub load-delete_object :
      (cache : Cache C) (t i t' i' : ℕ)
      → is_connected api cache ≡ true
      → IsKey (prefix_of cache.config) t i
      → IsKey (prefix_of cache.config) t' i'
      → ((redis_cache_delete_object api cache t i).1 ≡ true)
        × ((redis_cache_load_object cj fpu api (redis_cache_delete_object api cache t i).0 t' i').1
            ≡ (if deletion_taken api cache t i && (t == t' && i == i')
                then none
                else (redis_cache_load_object cj fpu api cache t' i').1))
  unfolding redis_cache_delete_object redis_cache_load_object is_connected
  load-delete_object cache t i t' i' up k k' =
      let (c, (found, sound)) = is_connected-context api cache up in
      let prefix = prefix_of cache.config in
      let live : cache.connected ≡ true = ground arith in
      let still = delete_in-up cj fpu api laws prefix t i c sound in
      elim (Bool-cases (is_failure (api.command c (del (make_object_key prefix t i))).1)) [
        | inl refused ↦ ground (
          arith,
          found,
          sound,
          live,
          still,
          refused,
          load-delete_refused prefix t i t' i' c k' sound refused,
        )
        | inr taken ↦ ground (
          arith,
          found,
          sound,
          live,
          still,
          taken,
          load-delete_in cj fpu api laws prefix t i t' i' c k k' taken,
        )
      ]

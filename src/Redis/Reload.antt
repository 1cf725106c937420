-- ===== src/Redis/Reload.antt =====
-- The present value of an object that src/redis_cache.c loads.
use bacnet_event_server.Base.{
  ℕ, ◌%◌, ◌≤◌, ◌≡◌, ◌↔◌, Bool, true, false, some, codes, arith, Option-cases, inl, inr,
}
use bacnet_event_server.Base.Json.{CJson}
use bacnet_event_server.Base.Words.{Fpu}
use bacnet_event_server.Message.Model.{CachedObject, write_bool, read_bool}
use bacnet_event_server.Message.Fields.{number_of, bool_of}
use bacnet_event_server.Redis.Client.{Reply, string, Hiredis, Cache, is_connected}
use bacnet_event_server.Redis.Objects.{
  load_word, load_in, read_object, read_reply, redis_cache_load_object,
}

low_byte-write_bool : (w : ℕ) (b : Bool) → write_bool w b % 256 ≤ 1
unfolding write_bool
low_byte-write_bool w true = omega arith
low_byte-write_bool w false = omega arith

module _ {J : Type 0} (cj : CJson J) (fpu : Fpu) where
  low_byte-load_word : (json : J) → load_word cj fpu json % 256 ≤ 1
  unfolding load_word
  low_byte-load_word json = low_byte-write_bool _ _

  low_byte-read_reply :
      (t i : ℕ) (r : Reply) (o : CachedObject)
      → read_reply cj fpu t i r ≡ some o
      → o.present_value % 256 ≤ 1
  unfolding read_object
  low_byte-read_reply t i (string text) o e = elim (Option-cases (cj.parse text)) [
    | inl failed ↦ absurd (cc (rw failed at e))
    | inr (json, parsed) ↦ ground (arith, rw parsed at e, low_byte-load_word json)
  ]
  low_byte-read_reply t i _ o e = absurd (ground (arith, e))

  -- A text whose signed member converts to `w` and whose boolean member is that of `w` loads as `w`
  -- exactly if the lowest byte of `w` is 0 or 1.
  pub load_word_iff :
      (json : J) (d w : ℕ)
      → number_of cj (cj.get_item json (codes "present_value_signed")) ≡ some d
      → fpu.i32_of_double d ≡ w
      → bool_of cj (cj.get_item json (codes "present_value_boolean")) ≡ some (read_bool w)
      → (load_word cj fpu json ≡ w) ↔ (w % 256 ≤ 1)
  unfolding load_word write_bool read_bool
  load_word_iff json d w number converts flag = rw (number, flag) (ground (arith, converts))

module _ {J C : Type 0} (cj : CJson J) (fpu : Fpu) (api : Hiredis C) where
  -- Whatever is stored: the lowest byte of the present value that is loaded is 0 or 1, since the boolean
  -- member is written over the number.
  pub low_byte-load_object :
      (cache : Cache C) (t i : ℕ) (o : CachedObject)
      → (redis_cache_load_object cj fpu api cache t i).1 ≡ some o
      → o.present_value % 256 ≤ 1
  unfolding redis_cache_load_object load_in is_connected
  low_byte-load_object cache t i o e = ground (arith, e, low_byte-read_reply cj fpu t i)

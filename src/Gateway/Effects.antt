-- ===== src/Gateway/Effects.antt =====
-- What an event does to the cache: on_event_received of src/main.c over src/redis_cache.c.
use bacnet_event_server.Base.{Bool, true}
use bacnet_event_server.Base.{ℕ, ◌^◌, ◌<◌, ◌≡◌, subst, Option, none, some, String, codes}
use mathlib.Core.Option
use mathlib.Core.Option.{some-injective, none-ne-some}
use bacnet_event_server.Base.Json.{CJson}
use bacnet_event_server.Base.Words.{Fpu, add32}
use bacnet_event_server.Message.Model.{CachedObject, Payload, definition, update, delete, config}
use bacnet_event_server.Message.Process.{cached_object}
use bacnet_event_server.Message.Fields.{or_default, number_of}
use bacnet_event_server.Redis.Client.{Reply, missing, absent, error, status, string, integer, array}
use bacnet_event_server.Redis.Objects.{converted, read_object, read_reply, updated_object}
use bacnet_event_server.Redis.View.{CacheView, put_object, reread}
use bacnet_event_server.Redis.Deletion.{deletion_taken}
use bacnet_event_server.Redis.Client.{Hiredis, Cache}

-- The conversions of C to `int32_t` and `uint32_t` give 32-bit words.
pub record ConvertsToWords (fpu : Fpu) : Type 0 where
  pub signed : (d : ℕ) → fpu.i32_of_double d < 2 ^ 32
  pub unsigned : (d : ℕ) → fpu.u32_of_double d < 2 ^ 32

-- A deletion whose DEL Redis does not refuse; the handler does not look at the result.
abbrev pub payload_taken : {C : Type 0} → Hiredis C → Cache C → Payload → ℕ → Bool
payload_taken api cache (definition d) offset = true
payload_taken api cache (update u) offset = true
payload_taken api cache (delete d) offset =
    deletion_taken api cache d.object_type (add32 d.object_instance offset)
payload_taken api cache (config c) offset = true

module _ {J : Type 0} (cj : CJson J) (fpu : Fpu) where
  -- The object is stored under its own type and instance.
  unfoldable pub put_stored : CachedObject → CacheView → CacheView
  unfolding put_object reread
  put_stored o v =
      put_object o.object_type o.object_instance (reread cj fpu o o.object_type o.object_instance) v

  abbrev pub put_updated :
      (CachedObject → CachedObject) → Option CachedObject → CacheView → CacheView
  put_updated f none v = v
  put_updated f (some o) v = put_stored (f o) v

  -- What a message that is processed with success does to the view; `clock` and `now` are the times that the
  -- cache and the handler read.
  unfoldable pub effect : ℕ → ℕ → Payload → ℕ → CacheView → CacheView
  unfolding put_stored cached_object updated_object put_object
  effect clock now (definition d) offset v = put_stored (cached_object now d offset) v
  effect clock now (update u) offset v =
      put_updated (updated_object clock u.value_type u.present_value u.status_flags now)
        (v.objects u.object_type (add32 u.object_instance offset)) v
  effect clock now (delete d) offset v =
      put_object d.object_type (add32 d.object_instance offset) none v
  effect clock now (config c) offset v = v

  converted-word :
      (f : ℕ → ℕ) (json : J) (key : String) (otherwise : ℕ)
      → ((d : ℕ) → f d < 2 ^ 32)
      → otherwise < 2 ^ 32
      → converted cj fpu f json key otherwise < 2 ^ 32
  converted-word f json key otherwise h k = word (number_of cj (cj.get_item json (codes key)))
    where
      word : (o : Option ℕ) → or_default (Option.map f o) otherwise < 2 ^ 32
      word none = k
      word (some d) = h d

  -- An object that is read has a type and an instance of 32 bits.
  pub read_reply-words :
      (t i : ℕ) (r : Reply) (o : CachedObject)
      → ConvertsToWords fpu
      → t < 2 ^ 32
      → i < 2 ^ 32
      → read_reply cj fpu t i r ≡ some o
      → (o.object_type < 2 ^ 32) × (o.object_instance < 2 ^ 32)
  unfolding read_object
  read_reply-words t i missing o words h k e = absurd (none-ne-some o e)
  read_reply-words t i absent o words h k e = absurd (none-ne-some o e)
  read_reply-words t i error o words h k e = absurd (none-ne-some o e)
  read_reply-words t i status o words h k e = absurd (none-ne-some o e)
  read_reply-words t i (integer n) o words h k e = absurd (none-ne-some o e)
  read_reply-words t i (array ms) o words h k e = absurd (none-ne-some o e)
  read_reply-words t i (string text) o words h k e = parsed (cj.parse text) e
    where
      parsed :
          (json : Option J)
          → Option.map (read_object cj fpu t i) json ≡ some o
          → (o.object_type < 2 ^ 32) × (o.object_instance < 2 ^ 32)
      parsed none f = absurd (none-ne-some o f)
      parsed (some json) f =
          subst (λ (p : CachedObject). (p.object_type < 2 ^ 32) × (p.object_instance < 2 ^ 32))
            (some-injective (read_object cj fpu t i json) o f)
            (
              converted-word fpu.i32_of_double json "object_type" t words.signed h,
              converted-word fpu.u32_of_double json "object_instance" i words.unsigned k,
            )

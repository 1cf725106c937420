-- ===== src/Redis/Objects.antt =====
-- Objects in the cache of src/redis_cache.c: storing as JSON, loading, updating, deleting.
pub mod Printing
unfoldable pub use Printing.*
use bacnet_event_server.Base.{
  ℕ, ◌%◌, Bool, true, false, not, ◌&&◌, List, [], ◌∷◌, ◌++◌, Option, none, some, Bytes, String,
  codes, copy_string, if◌then◌else◌, ◌==◌, leb, map, take,
}
use mathlib.Core.Option
use bacnet_event_server.Base.Decimal.{print_nat}
use bacnet_event_server.Base.Json.{CJson}
use bacnet_event_server.Base.Words.{Fpu}
use bacnet_event_server.Message.Model.{
  StatusFlags, CachedObject, type_real, type_boolean, write_bool, read_bool,
}
use bacnet_event_server.Message.Fields.{or_default, number_of, bool_of, string_of}
use bacnet_event_server.Redis.Client.{
  Command, set, get, del, sadd, srem, Reply, string, is_failure, Hiredis, RedisConfig, Cache,
  is_connected,
}
use bacnet_event_server.Base.Decimal.{print_signed}
use bacnet_event_server.Redis.Keys.{member_text, make_key, make_object_key}

-- One reply, used for its effect only: the new context.
abbrev pub run_command : {C : Type 0} → Hiredis C → C → Command → C
run_command api c command = (api.command c command).0

abbrev pub with_reply : {C A : Type 0} → (Reply → A) → C × Reply → C × A
with_reply f (c, r) = (c, f r)

abbrev pub prefix_of : RedisConfig → Bytes
prefix_of config = or_default config.key_prefix []

module _ {C : Type 0} (api : Hiredis C) where
  -- A function that returns at once with `failed` unless the cache is connected.
  abbrev pub with_context : {A : Type 0} → Cache C → A → (C → C × A) → Option C → Cache C × A
  with_context cache failed f none = (cache, failed)
  with_context cache failed f (some c) =
      let (c', a) = f c in (record cache { context = some c' }, a)

  abbrev pub when_connected : {A : Type 0} → Cache C → A → (C → C × A) → Cache C × A
  when_connected cache failed f =
      if is_connected api cache then with_context cache failed f cache.context else (cache, failed)

  -- redis_cache_delete_object: the replies are not looked at.
  unfoldable pub delete_in : Bytes → ℕ → ℕ → C → C × Bool
  delete_in prefix t i c = (
    run_command api (run_command api c (del (make_object_key prefix t i)))
        (srem (make_key prefix (codes "objects:index")) (member_text t i)),
    true,
  )

  unfoldable pub redis_cache_delete_object : Cache C → ℕ → ℕ → Cache C × Bool
  unfolding delete_in
  redis_cache_delete_object cache t i =
      when_connected cache false (delete_in (prefix_of cache.config) t i)

module _ {C : Type 0} (api : Hiredis C) (fpu : Fpu) where
  -- After SET: the member is added to the index, and the reply of SADD is not looked at.
  abbrev pub index_object : Bytes → CachedObject → C × Reply → C × Bool
  index_object prefix o (c, r) = if is_failure r then (c, false) else (
    run_command api c (
        sadd (make_key prefix (codes "objects:index"))
          (member_text o.object_type o.object_instance)),
    true,
  )

  unfoldable pub store_in : Bytes → CachedObject → C → C × Bool
  unfolding object_text
  store_in prefix o c = index_object prefix o (
      api.command c
        (set (make_object_key prefix o.object_type o.object_instance) (object_text fpu o)))

  -- redis_cache_store_object.
  unfoldable pub redis_cache_store_object : Cache C → CachedObject → Cache C × Bool
  unfolding store_in
  redis_cache_store_object cache o =
      when_connected api cache false (store_in (prefix_of cache.config) o)

module _ {J : Type 0} (cj : CJson J) (fpu : Fpu) where
  -- get_int_safe and its siblings: the number of a member, converted, or a default.
  abbrev pub converted : (ℕ → ℕ) → J → String → ℕ → ℕ
  converted convert json key d =
      or_default (Option.map convert (number_of cj (cj.get_item json (codes key)))) d

  abbrev pub flag_at : J → String → Bool
  flag_at json key = or_default (bool_of cj (cj.get_item json (codes key))) false

  abbrev pub text_at : ℕ → J → String → Bytes
  text_at size json key =
      copy_string size (or_default (string_of cj (cj.get_item json (codes key))) [])

  -- The texts of an array: at most 16, an entry that is no string staying empty.
  abbrev pub texts_of : Option (List J) → List Bytes
  texts_of none = []
  texts_of (some items) =
      map (λ t. copy_string 64 (or_default (cj.string_value t) [])) (take 16 items)

  abbrev pub items_at : Option J → Option (List J)
  items_at none = none
  items_at (some item) = cj.array_items item

  -- The four assignments to the union: each of the first three writes the whole word, the last one its
  -- first byte.
  unfoldable pub load_word : J → ℕ
  unfolding write_bool
  load_word json =
      let word = converted fpu.i32_of_double json "present_value_signed" 0 in
      write_bool word (flag_at json "present_value_boolean")

  -- The object that redis_cache_load_object makes of a parsed text.
  unfoldable pub read_object : ℕ → ℕ → J → CachedObject
  unfolding load_word
  read_object t i json = record {
    object_type = converted fpu.i32_of_double json "object_type" t;
    object_instance = converted fpu.u32_of_double json "object_instance" i;
    object_name = text_at 256 json "object_name";
    description = text_at 512 json "description";
    value_type = converted fpu.i32_of_double json "value_type" type_real;
    units = converted fpu.u32_of_double json "units" 95;
    units_text = text_at 64 json "units_text";
    cov_increment = fpu.narrow (converted (λ d. d) json "cov_increment" fpu.zero_double);
    min_value = fpu.narrow (converted (λ d. d) json "min_value" fpu.zero_double);
    max_value = fpu.narrow (converted (λ d. d) json "max_value" fpu.zero_double);
    state_texts = texts_of (items_at (cj.get_item json (codes "state_texts")));
    state_count = converted fpu.i32_of_double json "state_count" 0;
    inactive_text = text_at 64 json "inactive_text";
    active_text = text_at 64 json "active_text";
    supports_priority_array = flag_at json "supports_priority_array";
    present_value = load_word json;
    status_flags = record {
      in_alarm = flag_at json "status_in_alarm";
      fault = flag_at json "status_fault";
      overridden = flag_at json "status_overridden";
      out_of_service = flag_at json "status_out_of_service";
    };
    reliability = converted fpu.u32_of_double json "reliability" 0 % 256;
    event_state = converted fpu.u32_of_double json "event_state" 0 % 256;
    last_update = converted fpu.i64_of_double json "last_update" 0;
    source_id = text_at 128 json "source_id";
    stream_position = converted fpu.u64_of_double json "stream_position" 0;
  }

  abbrev pub read_reply : ℕ → ℕ → Reply → Option CachedObject
  read_reply t i (string text) = Option.map (read_object t i) (cj.parse text)
  read_reply t i _ = none

-- The write of redis_cache_update_value by the value type: four types write the word.
abbrev pub updated_word : ℕ → ℕ → ℕ → ℕ
updated_word value_type word old =
    if leb value_type 4 && not (value_type == type_boolean)
    then word
    else if value_type == type_boolean
    then write_bool old (read_bool word)
    else old

-- `now` is `time(NULL)`, which stands in for a time stamp of 0.
unfoldable pub updated_object : ℕ → ℕ → ℕ → Option StatusFlags → ℕ → CachedObject → CachedObject
unfolding write_bool read_bool
updated_object now value_type word flags stamp o = record o {
  present_value = updated_word value_type word o.present_value;
  status_flags = or_default flags o.status_flags;
  last_update = if stamp == 0 then now else stamp;
}

module _ {J C : Type 0} (cj : CJson J) (fpu : Fpu) (api : Hiredis C) where
  -- redis_cache_load_object.
  unfoldable pub load_in : Bytes → ℕ → ℕ → C → C × Option CachedObject
  unfolding read_object
  load_in prefix t i c =
      with_reply (read_reply cj fpu t i) (api.command c (get (make_object_key prefix t i)))

  unfoldable pub redis_cache_load_object : Cache C → ℕ → ℕ → Cache C × Option CachedObject
  unfolding load_in
  redis_cache_load_object cache t i =
      when_connected api cache none (load_in (prefix_of cache.config) t i)

  abbrev pub store_updated :
      (CachedObject → CachedObject) → Cache C × Option CachedObject → Cache C × Bool
  store_updated f (cache, none) = (cache, false)
  store_updated f (cache, some o) = redis_cache_store_object api fpu cache (f o)

  -- redis_cache_update_value.
  unfoldable pub redis_cache_update_value :
      ℕ → Cache C → (t i value_type word : ℕ) → Option StatusFlags → ℕ → Cache C × Bool
  unfolding redis_cache_load_object redis_cache_store_object updated_object
  redis_cache_update_value now cache t i value_type word flags stamp =
      store_updated (updated_object now value_type word flags stamp)
        (redis_cache_load_object cache t i)

-- ===== src/Redis/Tests.antt =====
-- The cache of src/redis_cache.c on a Redis kept in functions.
use bacnet_event_server.Base.{
  ℕ, ◌%◌, ◌≤◌, ◌≡◌, refl, true, [], ◌∷◌, List, none, some, codes, str_eq, arith,
}
use bacnet_event_server.Base.Decimal.{print_nat, digits}
use bacnet_event_server.Base.Samples.{whole, Doc, number, flag, nil, field, member, documents}
use bacnet_event_server.Message.Model.{CachedObject, write_bool}
use bacnet_event_server.Redis.Client.{Cache, is_connected}
use bacnet_event_server.Base.Decimal.{print_signed}
use bacnet_event_server.Redis.Keys.{member_text, make_object_key, make_object_key-injective}
use bacnet_event_server.Redis.Objects.{
  load_word, read_object, load_in, store_in, redis_cache_store_object, redis_cache_delete_object,
  redis_cache_load_object,
}
use bacnet_event_server.Redis.Positions.{
  redis_cache_store_stream_position, redis_cache_load_stream_position, store_position_in,
}
use bacnet_event_server.Redis.Frame.{IsKey, load-store_object}
use bacnet_event_server.Redis.Deletion.{load-delete_object}
use bacnet_event_server.Redis.Example.{error_laws}
use bacnet_event_server.Redis.Reload.{low_byte-load_object}
use bacnet_event_server.Redis.Roundtrip.{load-store_position}
use bacnet_event_server.Redis.Laws.{StringLaws-of, HashLaws-of}
use bacnet_event_server.Redis.Sample.{Database, redis, redis_laws}
use bacnet_event_server.Redis.Sample.{set_laws, remove_member}
use bacnet_event_server.Redis.Indexed.{contains}
use bacnet_event_server.Redis.Listing.{CacheCall, stores, deletes}
use bacnet_event_server.Redis.Live.{live}
use bacnet_event_server.Redis.Keys.{make_key}
use bacnet_event_server.Redis.Kept.{Visits, call_all, perform_all, all_succeed, iterate-call_all}
use bacnet_event_server.Redis.Example.{lamp, empty, empty-IsIndexed}

abbrev cache : Cache Database
cache = record {
  context = some (record { strings = λ key. none; hashes = λ key name. none; sets = λ key. [] });
  config = record {
    host = some (codes "localhost");
    port = 6379;
    password = none;
    database = 0;
    key_prefix = some (codes "b:");
  };
  connected = true;
}

-- What a JSON parser makes of the text stored for `lamp`, as far as the present value goes.
abbrev lamp_doc : Doc
lamp_doc =
    field (codes "present_value_signed") (number 300)
      (field (codes "present_value_boolean") (flag true) nil)

-- One name for all that a key computes with.
keys : Unit {0}
unfolding make_object_key member_text print_signed print_nat digits
keys = tt

lamp-IsKey : IsKey (codes "b:") 2 5
unfolding keys
lamp-IsKey = record {
  type_bounded = omega arith;
  instance_bounded = omega arith;
  whole = omega arith;
}

other-IsKey : IsKey (codes "b:") 2 6
unfolding keys
other-IsKey = record {
  type_bounded = omega arith;
  instance_bounded = omega arith;
  whole = omega arith;
}

up : is_connected redis cache ≡ true
unfolding is_connected
up = refl

lamp_stored : (redis_cache_store_object redis whole cache lamp).1 ≡ true
unfolding redis_cache_store_object store_in is_connected
lamp_stored = refl

load-store_object_example :
    (redis_cache_load_object
      (documents lamp_doc)
      whole
      redis
      (redis_cache_store_object redis whole cache lamp).0
      2
      6).1
    ≡ none
unfolding redis_cache_load_object load_in is_connected
load-store_object_example =
    load-store_object (documents lamp_doc) whole redis (StringLaws-of redis redis_laws) cache lamp 2
      6 up lamp-IsKey other-IsKey lamp_stored

load-delete_object_example :
    (redis_cache_load_object
      (documents lamp_doc)
      whole
      redis
      (redis_cache_delete_object redis (redis_cache_store_object redis whole cache lamp).0 2 5).0
      2
      5).1
    ≡ none
unfolding redis_cache_store_object is_connected
load-delete_object_example =
    (load-delete_object (documents lamp_doc) whole redis (StringLaws-of redis redis_laws) error_laws
      (redis_cache_store_object redis whole cache lamp).0 2 5 2 5
      (unfold redis_cache_store_object is_connected store_in in refl) lamp-IsKey lamp-IsKey).1

make_object_key-injective_example : ◌≡◌ {A = ℕ} 2 2 × ◌≡◌ {A = ℕ} 5 5
make_object_key-injective_example =
    make_object_key-injective (codes "b:") 2 5 2 5 (omega arith) (omega arith) (omega arith)
      (omega arith) lamp-IsKey.whole lamp-IsKey.whole refl

load-store_position_example :
    (redis_cache_load_stream_position redis
      (redis_cache_store_stream_position redis cache (codes "plant") 42).0
      (codes "plant")).1
    ≡ some 42
unfolding str_eq
load-store_position_example =
    load-store_position redis (HashLaws-of redis redis_laws) cache (codes "plant") (codes "plant")
      42 up (omega arith)
      (unfold redis_cache_store_stream_position is_connected store_position_in in refl)

-- 300 is loaded as 257.
lamp_word : load_word (documents lamp_doc) whole lamp_doc ≡ 257
unfolding load_word write_bool member str_eq
lamp_word = refl

abbrev lamp_loaded : CachedObject
unfolding read_object
lamp_loaded = read_object (documents lamp_doc) whole 2 5 lamp_doc

low_byte-load_object_example : lamp_loaded.present_value % 256 ≤ 1
unfolding keys
low_byte-load_object_example =
    low_byte-load_object (documents lamp_doc) whole redis
      (redis_cache_store_object redis whole cache lamp).0 2 5 lamp_loaded
      (unfold redis_cache_load_object load_in redis_cache_store_object store_in is_connected
          read_object str_eq make_object_key in
        refl)

big : print_nat 4194303 ≡ codes "4194303"
unfolding print_nat digits
big = refl

abbrev calls : List CacheCall
calls = stores lamp ∷ deletes 2 6 ∷ []

iterate-call_all_example :
    Visits
      (documents lamp_doc)
      whole
      redis
      (call_all whole redis calls (live cache.config empty))
      lamp_loaded
iterate-call_all_example =
    iterate-call_all (documents lamp_doc) whole redis redis_laws set_laws cache.config calls empty
      (member_text 2 5 ∷ []) lamp_loaded (omega arith) refl empty-IsIndexed
      ((omega arith, omega arith), ((omega arith, omega arith), tt)) (unfold all_succeed in refl)
      (unfold perform_all contains str_eq remove_member member_text print_signed print_nat digits
          make_key in
        refl)

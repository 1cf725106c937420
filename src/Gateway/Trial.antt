-- ===== src/Gateway/Trial.antt =====
-- The gateway with its cache on a Redis kept in functions.
use bacnet_event_server.Base.{
  ◌%◌, ◌^◌, ◌≡◌, refl, true, List, [], ◌∷◌, none, some, codes, str_eq, arith,
}
use bacnet_event_server.Base.Decimal.{print_nat, print_signed, digits}
use bacnet_event_server.Base.Words.{Fpu}
use bacnet_event_server.Base.Samples.{whole, Doc, text, number, field, nil, member, documents}
use bacnet_event_server.Message.Types.{parse_message_type, parse_object_type}
use bacnet_event_server.Message.Fields.{get_string, get_number}
use bacnet_event_server.Message.Parse.{
  parse_object_id, parse_object_delete, parse_payload, parse_root, message_handler_parse,
}
use bacnet_event_server.Message.Process.{
  process_object_delete, process_payload, message_handler_process,
}
use bacnet_event_server.Redis.Client.{RedisConfig, is_connected}
use bacnet_event_server.Redis.Keys.{member_text, make_object_key}
use bacnet_event_server.Redis.Objects.{
  delete_in, redis_cache_delete_object, redis_cache_load_object,
}
use bacnet_event_server.Redis.Positions.{
  store_position_in, redis_cache_store_stream_position, redis_cache_load_stream_position,
}
use bacnet_event_server.Redis.Sample.{Database, redis, redis_laws}
use bacnet_event_server.Redis.Live.{live}
use bacnet_event_server.Gateway.Cached.{ServerCalls, cached_services}
use bacnet_event_server.Gateway.Effects.{ConvertsToWords}
use bacnet_event_server.Gateway.Events.{Subscription, on_event_received, find_offset}
use bacnet_event_server.Gateway.Arrivals.{Arrival, receive_all, all_taken, replayed}
use bacnet_event_server.Gateway.Replayed.{receive_all-replayed}
use bacnet_event_server.Redis.Objects.{store_in}
use bacnet_event_server.Redis.Example.{lamp, empty, empty-IsKept, set_rules}
use bacnet_event_server.Redis.Steady.{IsKept, store_in-IsKept}
use bacnet_event_server.Gateway.Recovered.{Recovers, receive_all-Recovers}
use bacnet_event_server.Gateway.Arrivals.{view_of}
use bacnet_event_server.Gateway.Events.{Event}

-- A server that takes every call.
abbrev server : ServerCalls (Unit {0})
server = record {
  create_object = λ b o. (b, true);
  update_value = λ b t i value_type word flags. (b, true);
  delete_object = λ b t i. b;
  update_device = λ b name description location. b;
}

-- Conversions to 32-bit words.
abbrev words : Fpu
words = record whole { u32_of_double = λ d. d % 2 ^ 32; i32_of_double = λ d. d % 2 ^ 32 }

words-ConvertsToWords : ConvertsToWords words
words-ConvertsToWords = record { signed = λ d. omega arith; unsigned = λ d. omega arith }

abbrev settings : RedisConfig
settings = record {
  host = some (codes "localhost");
  port = 6379;
  password = none;
  database = 0;
  key_prefix = some (codes "b:");
}

-- Every object is stored, and no position.
abbrev full : Database
full = record { strings = λ key. some (codes "{}"); hashes = λ key name. none; sets = λ key. [] }

abbrev deletion : Doc
deletion = field (codes "messageType") (text (codes "ObjectDelete")) (
    field (codes "sourceId") (text (codes "plant")) (
      field (codes "payload")
        (field (codes "objectType") (text (codes "binary-input"))
          (field (codes "objectInstance") (number 1) nil))
        nil))

abbrev arrivals : List Arrival
arrivals =
    record {
      event = record {
        subscription_id = codes "plant";
        text = some (codes "{}");
        stream_revision = 8;
      };
      clock = 100;
      now = 100;
    }
    ∷ []

abbrev subscriptions : List Subscription
subscriptions = record { subscription_id = codes "plant"; instance_offset = 1000 } ∷ []

-- One name for all that handling the deletion computes with.
handling : Unit {0}
unfolding find_offset receive_all all_taken replayed on_event_received member str_eq
    parse_message_type parse_object_type get_string get_number parse_object_id parse_object_delete
    parse_payload parse_root message_handler_parse process_object_delete process_payload
    message_handler_process cached_services is_connected redis_cache_delete_object
    redis_cache_store_stream_position delete_in store_position_in make_object_key member_text
    print_signed print_nat digits
handling = tt

taken :
    all_taken
      (documents deletion)
      words
      redis
      server
      subscriptions
      (live settings full, tt)
      arrivals
    ≡ true
unfolding handling
taken = refl

receive_all-replayed_example :
    let cache =
      (receive_all
        (documents deletion)
        words
        redis
        server
        subscriptions
        (live settings full, tt)
        arrivals).0 in
    ((redis_cache_load_object (documents deletion) words redis cache 3 1001).1 ≡ none)
    × ((redis_cache_load_stream_position redis cache (codes "plant")).1 ≡ some 8)
unfolding handling
receive_all-replayed_example =
    receive_all-replayed (documents deletion) words redis redis_laws server settings subscriptions
      full tt arrivals 3 1001 (codes "plant") words-ConvertsToWords (omega arith) refl
      (omega arith, tt) taken (omega arith) (omega arith)

-- A connection on which an object is stored.
abbrev stocked : Database
unfolding store_in
stocked = (store_in redis words (codes "b:") lamp empty).0

stocked-IsKept : IsKept redis (codes "b:") stocked
unfolding store_in
stocked-IsKept =
    store_in-IsKept redis redis_laws set_rules (codes "b:") (omega arith) words lamp empty refl
      (omega arith) (omega arith) refl empty-IsKept

stocked_taken :
    all_taken
      (documents deletion)
      words
      redis
      server
      subscriptions
      (live settings stocked, tt)
      arrivals
    ≡ true
unfolding handling
stocked_taken = refl

-- The stored object survives the deletion of another one.
receive_all-Recovers_example :
    Recovers
      (documents deletion)
      words
      redis
      (receive_all
        (documents deletion)
        words
        redis
        server
        subscriptions
        (live settings stocked, tt)
        arrivals).0
      (replayed
        (documents deletion)
        words
        subscriptions
        arrivals
        (view_of (documents deletion) words redis (codes "b:") stocked))
      lamp
receive_all-Recovers_example =
    receive_all-Recovers (documents deletion) words redis redis_laws set_rules server settings
      subscriptions stocked tt arrivals lamp words-ConvertsToWords (omega arith) refl stocked-IsKept
      (omega arith, tt) stocked_taken

abbrev deletion_event : Event
deletion_event = record {
  subscription_id = codes "plant";
  text = some (codes "{}");
  stream_revision = 8;
}

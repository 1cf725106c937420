-- ===== src/Redis/Example.antt =====
-- An object, a Redis that holds nothing, and the rules of sets for the Redis kept in functions.
use bacnet_event_server.Base.{refl, false, [], none, codes, arith}
use bacnet_event_server.Message.Model.{CachedObject}
use bacnet_event_server.Redis.Sample.{Database, redis, set_laws}
use bacnet_event_server.Redis.Indexed.{is_present, is_member, IsIndexed, contains}
use bacnet_event_server.Redis.Steady.{SetRules, IsKept}
use bacnet_event_server.Redis.Client.{
  Command, auth, select, set, get, del, smembers, scard, sadd, srem, hget, publish, hset, hmset,
  Reply, missing, absent, error, status, string, integer, array,
}
use bacnet_event_server.Redis.Sample.{run, reply_of}
use bacnet_event_server.Redis.Deletion.{ErrorLaws, is_missing}
use bacnet_event_server.Base.{true, Bytes, ◌≡◌, Bool, Option, some, sym, ap, ◌∙◌, ◌≢◌}

abbrev pub lamp : CachedObject
lamp = record {
  object_type = 2;
  object_instance = 5;
  object_name = codes "lamp";
  description = [];
  value_type = 0;
  units = 95;
  units_text = [];
  cov_increment = 0;
  min_value = 0;
  max_value = 0;
  state_texts = [];
  state_count = 0;
  inactive_text = [];
  active_text = [];
  supports_priority_array = false;
  present_value = 300;
  status_flags = record {
    in_alarm = false;
    fault = false;
    overridden = false;
    out_of_service = false;
  };
  reliability = 0;
  event_state = 0;
  last_update = 100;
  source_id = [];
  stream_position = 0;
}

abbrev pub empty : Database
empty = record { strings = λ key. none; hashes = λ key name. none; sets = λ key. [] }

pub empty-IsIndexed :
    IsIndexed (is_present redis (codes "b:") empty) (is_member redis (codes "b:") empty)
unfolding contains
empty-IsIndexed = record {
  sound = λ m e. absurd (ground (arith, e));
  complete = λ t i h k e. absurd (ground (arith, e));
}

pub empty-IsKept : IsKept redis (codes "b:") empty
empty-IsKept = record { indexed = empty-IsIndexed; is_set = refl }

pub set_rules : SetRules redis
set_rules = record {
  laws = set_laws;
  sadd_taken = λ c key m up set. refl;
  srem_taken = λ c key m up set. refl;
  array_sadd = λ c key m taken. refl;
  array_srem = λ c key m taken. refl;
}

true-ne-false : true ≢ false
true-ne-false e = ground (arith, e)

-- Whether a reply is none at all or an error.
abbrev is_bad : Reply → Bool
is_bad missing = true
is_bad error = true
is_bad _ = false

strings_answer : (r : Option Bytes) → is_bad (reply_of r) ≡ false
strings_answer none = refl
strings_answer (some text) = refl

never_bad : (c : Database) (command : Command) → is_bad (run c command).1 ≡ false
never_bad c (auth password) = refl
never_bad c (select number) = refl
never_bad c (set key value) = refl
never_bad c (get key) = strings_answer (c.strings key)
never_bad c (del key) = refl
never_bad c (smembers key) = refl
never_bad c (scard key) = refl
never_bad c (sadd key member) = refl
never_bad c (srem key member) = refl
never_bad c (hget key name) = strings_answer (c.hashes key name)
never_bad c (publish channel message) = refl
never_bad c (hset key name value) = refl
never_bad c (hmset key fields) = refl

not_missing : (r : Reply) → is_bad r ≡ false → is_missing r ≡ false
not_missing missing h = h
not_missing error h = refl
not_missing absent h = refl
not_missing status h = refl
not_missing (string text) h = refl
not_missing (integer n) h = refl
not_missing (array ms) h = refl

pub error_laws : ErrorLaws redis
error_laws = record {
  answers = λ c command up. not_missing (run c command).1 (never_bad c command);
  get_error = λ c command key e. absurd (true-ne-false (sym (ap is_bad e) ∙ never_bad c command));
  hget_error =
      λ c command key name e. absurd (true-ne-false (sym (ap is_bad e) ∙ never_bad c command));
}

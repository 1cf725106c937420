-- ===== src/Bacnet/Objects.antt =====
-- The lifecycle and the object registry of src/bacnet_server.c. The server handle is not NULL (every
-- function returns its failure value at once on a NULL handle); a lock is held for the whole body.
use bacnet_event_server.Base.{
  ℕ, ◌%◌, ◌^◌, Bool, true, false, not, ◌&&◌, ◌||◌, List, [], ◌∷◌, ◌++◌, Option, none, some, Bytes,
  copy_string, if◌then◌else◌, ◌==◌, leb, is_some,
}
use bacnet_event_server.Base.Words.{inc64, dec64}
use bacnet_event_server.Bacnet.Model.{
  Value, null, real, unsigned, boolean, enumerated, Object, Config, Stats, Server, StackCall,
  create, name_set, units_set, present_value_set, remove, analog_input, analog_output, analog_value,
  binary_input, binary_output, binary_value, multi_state_input, multi_state_output,
  multi_state_value,
}

abbrev pub zero_stats : Stats
zero_stats = record {
  read_requests = 0;
  write_requests = 0;
  cov_notifications_sent = 0;
  objects_total = 0;
}

-- bacnet_server_create: `none` for a NULL configuration or when `calloc` fails.
unfoldable pub server_create : Bool → Option Config → Option Server
server_create allocated none = none
server_create allocated (some c) =
    if allocated
    then some (record {
      config = c;
      objects = [];
      object_count = 0;
      cov_subscriptions = [];
      cov_subscription_count = 0;
      running = false;
      stats = zero_stats;
      calls = [];
    })
    else none

-- bacnet_server_start. `linked` and `threaded` say whether `datalink_init` and `pthread_create`
-- succeed; the stack's device settings and handler registrations carry no state of the server.
unfoldable pub server_start : (linked threaded : Bool) → Server → Server × Bool
server_start linked threaded s =
    if s.running
    then (s, false)
    else if not linked
    then (s, false)
    else if not threaded
    then (record s { running = false }, false)
    else (record s { running = true }, true)

-- bacnet_server_stop.
unfoldable pub server_stop : Server → Server
server_stop s = if not s.running then s else record s { running = false }

-- The test of every walk along the object list.
abbrev pub is_object : ℕ → ℕ → Object → Bool
is_object t i o = o.object_type == t && o.object_instance == i

-- find_object.
unfoldable pub find_object : List Object → ℕ → ℕ → Option Object
find_object [] t i = none
find_object (o ∷ os) t i = if is_object t i o then some o else find_object os t i

-- The initial present value, which the stack is told for analog inputs only.
abbrev pub initial_calls : ℕ → ℕ → Option Value → List StackCall → List StackCall
initial_calls t i (some (real v)) calls = present_value_set t i (real v) ∷ calls
initial_calls t i _ calls = calls

-- The calls of the BACnet stack in bacnet_server_create_object, newest first.
unfoldable pub stack_create : ℕ → ℕ → Bytes → ℕ → Option Value → List StackCall
stack_create t i name units initial =
    if t == analog_input
    then initial_calls t i initial (units_set t i units ∷ name_set t i name ∷ create t i ∷ [])
    else if t == analog_output || t == analog_value
    then units_set t i units ∷ name_set t i name ∷ create t i ∷ []
    else if t == binary_input
        || t == binary_output
        || t == binary_value
        || t == multi_state_input
        || t == multi_state_output
        || t == multi_state_value
    then name_set t i name ∷ create t i ∷ []
    else []

-- The value that a missing initial value leaves.
abbrev pub value_or_null : Option Value → Value
value_or_null none = null
value_or_null (some v) = v

abbrev pub text_or_empty : Option Bytes → Bytes
text_or_empty none = []
text_or_empty (some d) = d

-- The arguments of bacnet_server_create_object; a pointer that may be NULL is an `Option`.
pub record Request : Type 0 where
  pub object_type : ℕ
  pub object_instance : ℕ
  pub name : Option Bytes
  pub description : Option Bytes
  pub initial_value : Option Value
  pub units : ℕ
  pub cov_increment : ℕ

unfoldable pub new_object : ℕ → Request → Bytes → Object
new_object now r name = record {
  object_type = r.object_type;
  object_instance = r.object_instance;
  name = copy_string 128 name;
  description = copy_string 256 (text_or_empty r.description);
  present_value = value_or_null r.initial_value;
  last_cov_value = value_or_null r.initial_value;
  units = r.units;
  cov_increment = r.cov_increment;
  out_of_service = false;
  number_of_states = 0;
  created_at = now;
  updated_at = now;
}

-- The object goes to the head of the list.
unfoldable pub add_object : ℕ → Server → Request → Bytes → Server
add_object now s r name = record s {
  objects = new_object now r name ∷ s.objects;
  object_count = inc64 s.object_count;
  stats = record (s.stats) { objects_total = inc64 s.object_count };
  calls = stack_create r.object_type r.object_instance name r.units r.initial_value ++ s.calls;
}

-- bacnet_server_create_object. `allocated`: whether `calloc` succeeds; `now`: `time(NULL)`.
unfoldable pub create_named : Bool → ℕ → Server → Request → Option Bytes → Server × Bool
create_named allocated now s r none = (s, false)
create_named allocated now s r (some name) =
    if is_some (find_object s.objects r.object_type r.object_instance)
    then (s, false)
    else if leb s.config.max_objects s.object_count
    then (s, false)
    else if not allocated
    then (s, false)
    else (add_object now s r name, true)

unfoldable pub create_object : Bool → ℕ → Server → Request → Server × Bool
unfolding create_named
create_object allocated now s r = create_named allocated now s r r.name

-- The walk of bacnet_server_delete_object: the first match leaves the list.
unfoldable pub unlink_object : List Object → ℕ → ℕ → List Object
unlink_object [] t i = []
unlink_object (o ∷ os) t i = if is_object t i o then os else o ∷ unlink_object os t i

-- The stack is told of a deletion for analog inputs only.
unfoldable pub stack_delete : ℕ → ℕ → List StackCall
stack_delete t i = if t == analog_input then remove t i ∷ [] else []

-- bacnet_server_delete_object.
unfoldable pub delete_object : Server → ℕ → ℕ → Server × Bool
delete_object s t i =
    if is_some (find_object s.objects t i)
    then (
      record s {
        objects = unlink_object s.objects t i;
        object_count = dec64 s.object_count;
        stats = record (s.stats) { objects_total = dec64 s.object_count };
        calls = stack_delete t i ++ s.calls;
      },
      true,
    )
    else (s, false)

-- The calls of the BACnet stack in bacnet_server_update_value, by the value's tag.
unfoldable pub stack_update : ℕ → ℕ → Value → List StackCall
stack_update t i (real v) =
    if t == analog_input || t == analog_output || t == analog_value
    then present_value_set t i (real v) ∷ []
    else []
stack_update t i (boolean v) =
    if t == binary_input then present_value_set t i (boolean v) ∷ [] else []
stack_update t i (enumerated v) =
    if t == binary_input then present_value_set t i (boolean (not (v == 0))) ∷ [] else []
stack_update t i (unsigned v) =
    if t == multi_state_input then present_value_set t i (unsigned v) ∷ [] else []
stack_update t i _ = []

-- A write through the pointer that find_object returned: the first match is changed in place.
unfoldable pub modify_object : (Object → Object) → List Object → ℕ → ℕ → List Object
modify_object f [] t i = []
modify_object f (o ∷ os) t i = if is_object t i o then f o ∷ os else o ∷ modify_object f os t i

abbrev pub set_value : Value → ℕ → Object → Object
set_value v now o = record o { present_value = v; updated_at = now }

-- The part of bacnet_server_update_value under the lock.
unfoldable pub store_value : ℕ → Server → ℕ → ℕ → Value → Server
store_value now s t i v = record s {
  objects = modify_object (set_value v now) s.objects t i;
  calls = stack_update t i v ++ s.calls;
}

-- bacnet_server_get_value and bacnet_server_object_exists.
unfoldable pub get_value : Server → ℕ → ℕ → Option Value
get_value s t i = elim (find_object s.objects t i) [ none ↦ none | some o ↦ some o.present_value ]

unfoldable pub object_exists : Server → ℕ → ℕ → Bool
object_exists s t i = is_some (find_object s.objects t i)

-- bacnet_server_get_stats and bacnet_server_reset_stats, which keeps the number of objects in a `uint32_t`.
unfoldable pub get_stats : Server → Stats
get_stats s = s.stats

unfoldable pub reset_stats : Server → Server
reset_stats s = record s {
  stats = record zero_stats { objects_total = s.stats.objects_total % 2 ^ 32 };
}

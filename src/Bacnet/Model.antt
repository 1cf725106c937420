-- ===== src/Bacnet/Model.antt =====
-- The state of src/bacnet_server.c: objects, CoV subscriptions, the server context, and the calls
-- that the server makes of the BACnet stack. An object type is its enumeration code (the program
-- casts numbers to the enumeration and prints them with %d), and a float is its bit pattern.
use bacnet_event_server.Base.{ℕ, Bool, List, Bytes}

-- bacnet_value_t: a tag and a union.
pub data Value : Type 0 where
  null : Value
  real : ℕ → Value
  double : ℕ → Value
  integer : ℕ → Value
  unsigned : ℕ → Value
  boolean : Bool → Value
  enumerated : ℕ → Value

-- The codes of bacnet_object_type_t.
abbrev pub analog_input : ℕ
analog_input = 0

abbrev pub analog_output : ℕ
analog_output = 1

abbrev pub analog_value : ℕ
analog_value = 2

abbrev pub binary_input : ℕ
binary_input = 3

abbrev pub binary_output : ℕ
binary_output = 4

abbrev pub binary_value : ℕ
binary_value = 5

abbrev pub multi_state_input : ℕ
multi_state_input = 13

abbrev pub multi_state_output : ℕ
multi_state_output = 14

abbrev pub multi_state_value : ℕ
multi_state_value = 19

-- bacnet_object_internal_t. `state_texts` is left out: no code of the server sets it.
pub record Object : Type 0 where
  pub object_type : ℕ
  pub object_instance : ℕ
  pub name : Bytes
  pub description : Bytes
  pub present_value : Value
  pub last_cov_value : Value
  pub units : ℕ
  pub cov_increment : ℕ
  pub out_of_service : Bool
  pub number_of_states : ℕ
  pub created_at : ℕ
  pub updated_at : ℕ

-- cov_subscription_t. The address holds `subscriber_address_len` bytes.
pub record Subscription : Type 0 where
  pub process_id : ℕ
  pub address : Bytes
  pub object_type : ℕ
  pub object_instance : ℕ
  pub confirmed : Bool
  pub lifetime : ℕ
  pub subscribed_at : ℕ

pub record Config : Type 0 where
  pub device_instance : ℕ
  pub device_name : Bytes
  pub device_description : Bytes
  pub device_location : Bytes
  pub vendor_id : ℕ
  pub vendor_name : Bytes
  pub model_name : Bytes
  pub port : ℕ
  pub max_objects : ℕ
  pub max_cov_subscriptions : ℕ

pub record Stats : Type 0 where
  pub read_requests : ℕ
  pub write_requests : ℕ
  pub cov_notifications_sent : ℕ
  pub objects_total : ℕ

-- The calls of the BACnet stack, one constructor for each family (Analog_Input_Create and so on).
pub data StackCall : Type 0 where
  create : (object_type object_instance : ℕ) → StackCall
  name_set : (object_type object_instance : ℕ) → Bytes → StackCall
  units_set : (object_type object_instance units : ℕ) → StackCall
  present_value_set : (object_type object_instance : ℕ) → Value → StackCall
  remove : (object_type object_instance : ℕ) → StackCall
  notify :
      (confirmed : Bool) (address : Bytes)
      (process_id device_instance object_type object_instance time_remaining value : ℕ)
      → StackCall

-- struct bacnet_server. `objects` and `cov_subscriptions` are the linked lists, head first;
-- `calls` is what the stack has been told, newest first.
pub record Server : Type 0 where
  pub config : Config
  pub objects : List Object
  pub object_count : ℕ
  pub cov_subscriptions : List Subscription
  pub cov_subscription_count : ℕ
  pub running : Bool
  pub stats : Stats
  pub calls : List StackCall

-- ===== src/Message/Model.antt =====
-- The message structures of include/message_handler.h and the cached object of
-- include/redis_cache.h. A `char` array is the string that it holds; a union of four bytes is the
-- 32-bit word that it holds.
use bacnet_event_server.Base.Int.{ℤ}
use bacnet_event_server.Base.{ℕ, Bool, List, Option, Bytes, if◌then◌else◌, ◌==◌, not, ◌-◌, ◌+◌, ◌%◌}

pub data MessageType : Type 0 where
  unknown object_definition value_update object_delete device_config : MessageType

pub data ParseResult : Type 0 where
  parse_ok invalid_json missing_field invalid_type invalid_value unknown_message_type : ParseResult

-- The codes of value_type_t.
abbrev pub type_real : ℕ
type_real = 0

abbrev pub type_unsigned : ℕ
type_unsigned = 1

abbrev pub type_signed : ℕ
type_signed = 2

abbrev pub type_boolean : ℕ
type_boolean = 3

abbrev pub type_enumerated : ℕ
type_enumerated = 4

-- A write of the union's `bool` member changes its first byte; a read is true unless that byte is 0.
unfoldable pub write_bool : ℕ → Bool → ℕ
write_bool w b = w - w % 256 + (if b then 1 else 0)

unfoldable pub read_bool : ℕ → Bool
read_bool w = not (w % 256 == 0)

pub record StatusFlags : Type 0 where
  pub in_alarm : Bool
  pub fault : Bool
  pub overridden : Bool
  pub out_of_service : Bool

pub record ObjectDefinition : Type 0 where
  pub object_type : ℕ
  pub object_instance : ℕ
  pub object_name : Bytes
  pub description : Bytes
  pub value_type : ℕ
  pub units : ℕ
  pub units_text : Bytes
  pub cov_increment : ℕ
  pub min_value : ℕ
  pub max_value : ℕ
  pub state_texts : List Bytes
  pub state_count : ℕ
  pub inactive_text : Bytes
  pub active_text : Bytes
  pub supports_priority_array : Bool
  pub has_initial_value : Bool
  pub initial_value : ℕ

-- The fields that no code sets (reliability, event state) are left out; an optional field and its
-- `has_` flag are an `Option`.
pub record ValueUpdate : Type 0 where
  pub object_type : ℕ
  pub object_instance : ℕ
  pub value_type : ℕ
  pub present_value : ℕ
  pub quality : Bytes
  pub status_flags : Option StatusFlags
  pub priority : Option ℕ
  pub source_timestamp_ms : Option ℤ

pub record ObjectDelete : Type 0 where
  pub object_type : ℕ
  pub object_instance : ℕ
  pub reason : Bytes

pub record DeviceConfig : Type 0 where
  pub device_name : Option Bytes
  pub device_description : Option Bytes
  pub location : Option Bytes
  pub model_name : Option Bytes
  pub vendor_name : Option Bytes
  pub application_version : Option Bytes

-- The union of the payloads; `MessageType` is its tag.
pub data Payload : Type 0 where
  definition : ObjectDefinition → Payload
  update : ValueUpdate → Payload
  delete : ObjectDelete → Payload
  config : DeviceConfig → Payload

pub record ParsedMessage : Type 0 where
  pub source_id : Bytes
  pub timestamp_ms : ℕ
  pub stream_position : ℕ
  pub correlation_id : Bytes
  pub payload : Payload

pub record CachedObject : Type 0 where
  pub object_type : ℕ
  pub object_instance : ℕ
  pub object_name : Bytes
  pub description : Bytes
  pub value_type : ℕ
  pub units : ℕ
  pub units_text : Bytes
  pub cov_increment : ℕ
  pub min_value : ℕ
  pub max_value : ℕ
  pub state_texts : List Bytes
  pub state_count : ℕ
  pub inactive_text : Bytes
  pub active_text : Bytes
  pub supports_priority_array : Bool
  pub present_value : ℕ
  pub status_flags : StatusFlags
  pub reliability : ℕ
  pub event_state : ℕ
  pub last_update : ℕ
  pub source_id : Bytes
  pub stream_position : ℕ

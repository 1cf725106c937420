-- ===== src/Message/WellFormed/Parts.antt =====
-- What makes a message of src/message_handler.c well formed.
use bacnet_event_server.Base.{
  ℕ, ◌<◌, ◌≤◌, ◌≡◌, Bool, true, Option, none, some, Bytes, length, All, ◌==◌, ◌||◌, ◌⊎◌,
}
use bacnet_event_server.Message.Model.{
  ObjectDefinition, ValueUpdate, ObjectDelete, DeviceConfig, Payload, definition, update, delete,
  config, ParsedMessage,
}

-- A string in a `char` array of `size` bytes.
abbrev pub Fits : ℕ → Bytes → Type 0
Fits size s = length s < size

abbrev pub OptionFits : ℕ → Option Bytes → Type 0
OptionFits size none = Unit {0}
OptionFits size (some s) = Fits size s

-- The nine object types of the protocol.
abbrev pub is_listed : ℕ → Bool
is_listed t =
    t == 0 || t == 1 || t == 2 || t == 3 || t == 4 || t == 5 || t == 13 || t == 14 || t == 19

pub record DefinitionIsWellFormed (d : ObjectDefinition) : Type 0 where
  pub listed : is_listed d.object_type ≡ true
  pub typed : d.value_type ≤ 4
  pub name_fits : Fits 256 d.object_name
  pub description_fits : Fits 512 d.description
  pub units_fit : Fits 64 d.units_text
  pub inactive_fits : Fits 64 d.inactive_text
  pub active_fits : Fits 64 d.active_text
  pub states_counted : d.state_count ≡ length d.state_texts
  pub states_bounded : d.state_count ≤ 16
  pub states_fit : All (Fits 64) d.state_texts

-- The value type that an update of each object type carries: 0 is a real, 1 an unsigned number and 3 a Boolean.
pub data IsTyped : (object_type value_type : ℕ) → Type 0 where
  analog : {t v : ℕ} → t ≤ 2 → v ≡ 0 → IsTyped t v
  binary : {t v : ℕ} → 3 ≤ t → t ≤ 5 → v ≡ 3 → IsTyped t v
  multi_state : {t v : ℕ} → (t ≡ 13) ⊎ ((t ≡ 14) ⊎ (t ≡ 19)) → v ≡ 1 → IsTyped t v

pub record UpdateIsWellFormed (u : ValueUpdate) : Type 0 where
  pub listed : is_listed u.object_type ≡ true
  pub typed : IsTyped u.object_type u.value_type
  pub quality_fits : Fits 16 u.quality

pub record DeleteIsWellFormed (d : ObjectDelete) : Type 0 where
  pub listed : is_listed d.object_type ≡ true
  pub reason_fits : Fits 256 d.reason

pub record ConfigIsWellFormed (c : DeviceConfig) : Type 0 where
  pub name_fits : OptionFits 256 c.device_name
  pub description_fits : OptionFits 512 c.device_description
  pub location_fits : OptionFits 256 c.location
  pub model_fits : OptionFits 256 c.model_name
  pub vendor_fits : OptionFits 256 c.vendor_name
  pub version_fits : OptionFits 64 c.application_version

abbrev pub PayloadIsWellFormed : Payload → Type 0
PayloadIsWellFormed (definition d) = DefinitionIsWellFormed d
PayloadIsWellFormed (update u) = UpdateIsWellFormed u
PayloadIsWellFormed (delete d) = DeleteIsWellFormed d
PayloadIsWellFormed (config c) = ConfigIsWellFormed c

pub record IsWellFormed (m : ParsedMessage) : Type 0 where
  pub source_fits : Fits 128 m.source_id
  pub correlation_fits : Fits 64 m.correlation_id
  pub payload_well_formed : PayloadIsWellFormed m.payload

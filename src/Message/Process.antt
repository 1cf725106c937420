-- ===== src/Message/Process.antt =====
-- The process functions of src/message_handler.c. The cache and the server are reached through the
-- functions that include/redis_cache.h and include/bacnet_server.h declare; the server functions
-- have no implementation with these signatures in the repository.
use bacnet_event_server.Base.{
  ℕ, Bool, true, false, [], Option, Bytes, copy_string, map, take, if◌then◌else◌, not, leb,
}
use bacnet_event_server.Base.Words.{add32}
use bacnet_event_server.Message.Model.{
  StatusFlags, ObjectDefinition, ValueUpdate, ObjectDelete, DeviceConfig, Payload, definition,
  update, delete, config, ParsedMessage, CachedObject,
}

-- The functions of the two headers over the state that they share; true stands for the return value 0.
pub record Services (S : Type 0) : Type 0 where
  pub store_object : S → CachedObject → S × Bool
  pub update_cached :
      S → (object_type object_instance value_type word : ℕ) → Option StatusFlags → ℕ → S × Bool
  pub delete_cached : S → (object_type object_instance : ℕ) → S
  pub create_object : S → CachedObject → S × Bool
  pub update_value :
      S → (object_type object_instance value_type word : ℕ) → Option StatusFlags → S × Bool
  pub delete_object : S → (object_type object_instance : ℕ) → S
  pub update_device : S → (name description location : Option Bytes) → S
  pub store_position : S → Bytes → ℕ → S
  pub load_position : S → Bytes → Option ℕ

abbrev no_flags : StatusFlags
no_flags = record { in_alarm = false; fault = false; overridden = false; out_of_service = false }

-- The cached object of a definition: the fields are copied, the instance is moved by the offset.
unfoldable pub cached_object : ℕ → ObjectDefinition → ℕ → CachedObject
cached_object now d offset = record {
  object_type = d.object_type;
  object_instance = add32 d.object_instance offset;
  object_name = copy_string 256 d.object_name;
  description = copy_string 512 d.description;
  value_type = d.value_type;
  units = d.units;
  units_text = copy_string 64 d.units_text;
  cov_increment = d.cov_increment;
  min_value = d.min_value;
  max_value = d.max_value;
  state_texts = map (take 63) (take d.state_count d.state_texts);
  state_count = d.state_count;
  inactive_text = copy_string 64 d.inactive_text;
  active_text = copy_string 64 d.active_text;
  supports_priority_array = d.supports_priority_array;
  present_value = if d.has_initial_value then d.initial_value else 0;
  status_flags = no_flags;
  reliability = 0;
  event_state = 0;
  last_update = now;
  source_id = [];
  stream_position = 0;
}

-- The value types that message_handler_process_value_update accepts.
abbrev pub is_value_type : ℕ → Bool
is_value_type t = leb t 4

module _ {S : Type 0} (api : Services S) where
  unfoldable pub process_object_definition : ℕ → S → ObjectDefinition → ℕ → S × Bool
  unfolding cached_object
  process_object_definition now s d offset =
      let object = cached_object now d offset in
      let (s1, stored) = api.store_object s object in
      if stored then api.create_object s1 object else (s1, false)

  unfoldable pub process_value_update : ℕ → S → ValueUpdate → ℕ → S × Bool
  process_value_update now s u offset =
      let number = add32 u.object_instance offset in
      let (s1, cached) =
        api.update_cached s u.object_type number u.value_type u.present_value u.status_flags now in
      if not (is_value_type u.value_type)
      then (s, false)
      else if cached
      then api.update_value s1 u.object_type number u.value_type u.present_value u.status_flags
      else (s1, false)

  -- The results of the two deletions are ignored.
  unfoldable pub process_object_delete : S → ObjectDelete → ℕ → S × Bool
  process_object_delete s d offset =
      let number = add32 d.object_instance offset in
      (api.delete_object (api.delete_cached s d.object_type number) d.object_type number, true)

  -- Three of the six fields are passed on.
  unfoldable pub process_device_config : S → DeviceConfig → S × Bool
  process_device_config s c =
      (api.update_device s c.device_name c.device_description c.location, true)

  -- The switch of message_handler_process.
  unfoldable pub process_payload : ℕ → S → Payload → ℕ → S × Bool
  unfolding process_object_definition process_value_update process_object_delete
      process_device_config
  process_payload now s (definition d) offset = process_object_definition now s d offset
  process_payload now s (update u) offset = process_value_update now s u offset
  process_payload now s (delete d) offset = process_object_delete s d offset
  process_payload now s (config c) offset = process_device_config s c

  unfoldable pub message_handler_process : ℕ → S → ParsedMessage → ℕ → S × Bool
  unfolding process_payload
  message_handler_process now s m offset = process_payload now s m.payload offset

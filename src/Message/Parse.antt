-- ===== src/Message/Parse.antt =====
-- The parse functions of src/message_handler.c. An error returns its code; what the function had
-- written into the message by then is not read by any caller.
use bacnet_event_server.Base.{
  ℕ, ◌*◌, Bool, true, false, not, ◌&&◌, ◌||◌, List, [], Option, none, some, Bytes, codes,
  copy_string, if◌then◌else◌, ◌==◌, length, take, map, is_some, String,
}
use mathlib.Core.Option
use bacnet_event_server.Base.Int.{ℤ}
use bacnet_event_server.Base.Json.{CJson}
use bacnet_event_server.Base.Words.{Fpu}
use bacnet_event_server.Message.Model.{
  MessageType, unknown, object_definition, value_update, object_delete, device_config, invalid_json,
  invalid_value, unknown_message_type, type_real, type_unsigned, type_signed, type_boolean,
  StatusFlags, ObjectDefinition, ValueUpdate, ObjectDelete, DeviceConfig, Payload, definition,
  update, delete, config, ParsedMessage,
}
use bacnet_event_server.Message.Types.{
  parse_message_type, parse_object_type, parse_value_type, is_negative,
}
use bacnet_event_server.Message.Timestamp.{parse_timestamp}
use bacnet_event_server.Message.Fields.{
  Parsed, ok, err, ◌>>=◌, ◌>>◌, required, check, or_default, object_of, get_string, get_number,
  get_bool,
}

-- The texts of "stateTexts": at most 16, an entry that is no string staying empty.
abbrev pub state_texts_of : Option (List (Option Bytes)) → List Bytes
state_texts_of none = []
state_texts_of (some items) = map (λ t. take 63 (or_default t [])) (take 16 items)

-- The types of the value that parse_value_update derives from the object type.
abbrev pub is_binary : ℕ → Bool
is_binary t = t == 3 || t == 4 || t == 5

abbrev pub is_multi_state : ℕ → Bool
is_multi_state t = t == 13 || t == 14 || t == 19

-- The value type of an update, by the object type.
unfoldable pub update_type : ℕ → ℕ
update_type t =
    if is_binary t then type_boolean else if is_multi_state t then type_unsigned else type_real

abbrev pub bool_word : Bool → ℕ
bool_word b = if b then 1 else 0

abbrev pub is_known : MessageType → Bool
is_known unknown = false
is_known _ = true

module _ {J : Type 0} (cj : CJson J) (fpu : Fpu) where
  -- The three fields that name an object.
  unfoldable pub parse_object_id : J → Parsed (ℕ × ℕ)
  unfolding get_string get_number
  parse_object_id payload = do
    text ← required (get_string cj payload "objectType")
    let t = parse_object_type text
    check (not (is_negative t)) invalid_value
    number ← required (get_number cj payload "objectInstance")
    ok (t, fpu.u32_of_double number)

  -- The union of the initial value: a number by the value type, a boolean into the first byte.
  abbrev pub initial_word : ℕ → Option J → ℕ
  initial_word value_type none = 0
  initial_word value_type (some item) =
      if cj.is_number item
      then if value_type == type_real
        then fpu.narrow (cj.number item)
        else if value_type == type_signed
        then fpu.i32_of_double (cj.number item)
        else fpu.u32_of_double (cj.number item)
      else if cj.is_bool item
      then bool_word (cj.is_true item)
      else 0

  abbrev pub float_field : J → String → ℕ
  float_field payload key = fpu.narrow (or_default (get_number cj payload key) fpu.zero_double)

  abbrev pub text_field : J → String → Bytes → Bytes
  text_field payload key d = or_default (get_string cj payload key) d

  -- 95 is the BACnet unit "no-units".
  abbrev pub units_of : Option ℕ → ℕ
  units_of none = 95
  units_of (some d) = fpu.u32_of_double d

  abbrev pub texts_at : Option J → Option (List (Option Bytes))
  texts_at none = none
  texts_at (some item) = Option.map (map cj.string_value) (cj.array_items item)

  unfoldable pub parse_object_definition : J → Parsed ObjectDefinition
  unfolding parse_object_id get_string get_number get_bool
  parse_object_definition payload = do
    (t, number) ← parse_object_id payload
    name ← required (get_string cj payload "objectName")
    value_text ← required (get_string cj payload "presentValueType")
    let value_type = parse_value_type value_text
    let texts = state_texts_of (texts_at (cj.get_item payload (codes "stateTexts")))
    let initial = cj.get_item payload (codes "initialValue")
    ok (record {
      object_type = t;
      object_instance = number;
      object_name = copy_string 256 name;
      description = copy_string 512 (text_field payload "description" []);
      value_type = value_type;
      units = units_of (get_number cj payload "units");
      units_text = copy_string 64 (text_field payload "unitsText" []);
      cov_increment = float_field payload "covIncrement";
      min_value = float_field payload "minPresentValue";
      max_value = float_field payload "maxPresentValue";
      state_texts = texts;
      state_count = length texts;
      inactive_text = copy_string 64 (text_field payload "inactiveText" (codes "Inactive"));
      active_text = copy_string 64 (text_field payload "activeText" (codes "Active"));
      supports_priority_array = get_bool cj payload "priorityArray" false;
      has_initial_value = is_some initial;
      initial_value = initial_word value_type initial;
    })

  -- The present value of an update, by the object type; a number is read from the node without a test
  -- that it is one.
  unfoldable pub update_word : ℕ → J → ℕ
  update_word t item =
      if is_binary t
      then bool_word
          (cj.is_true item || cj.is_number item && fpu.ne (cj.number item) fpu.zero_double)
      else if is_multi_state t
      then fpu.u32_of_double (cj.number item)
      else fpu.narrow (cj.number item)

  unfoldable pub parse_flags : Option J → Option StatusFlags
  unfolding get_bool
  parse_flags none = none
  parse_flags (some item) = some (record {
    in_alarm = get_bool cj item "inAlarm" false;
    fault = get_bool cj item "fault" false;
    overridden = get_bool cj item "overridden" false;
    out_of_service = get_bool cj item "outOfService" false;
  })

  -- A timestamp that cannot be parsed is reported and left out.
  abbrev pub stamp_of : Option Bytes → Option ℤ
  stamp_of none = none
  stamp_of (some text) = parse_timestamp text

  unfoldable pub parse_value_update : J → Parsed ValueUpdate
  unfolding parse_object_id update_type update_word parse_flags get_string get_number
  parse_value_update payload = do
    (t, number) ← parse_object_id payload
    item ← required (cj.get_item payload (codes "presentValue"))
    ok (record {
      object_type = t;
      object_instance = number;
      value_type = update_type t;
      present_value = update_word t item;
      quality = copy_string 16 (text_field payload "quality" (codes "good"));
      status_flags = parse_flags (object_of cj (cj.get_item payload (codes "statusFlags")));
      priority = Option.map fpu.u8_of_double (get_number cj payload "priority");
      source_timestamp_ms = stamp_of (get_string cj payload "sourceTimestamp");
    })

  unfoldable pub parse_object_delete : J → Parsed ObjectDelete
  unfolding parse_object_id get_string
  parse_object_delete payload = do
    (t, number) ← parse_object_id payload
    ok (record {
      object_type = t;
      object_instance = number;
      reason = copy_string 256 (text_field payload "reason" []);
    })

  unfoldable pub parse_device_config : J → DeviceConfig
  unfolding get_string
  parse_device_config payload = record {
    device_name = Option.map (copy_string 256) (get_string cj payload "deviceName");
    device_description = Option.map (copy_string 512) (get_string cj payload "deviceDescription");
    location = Option.map (copy_string 256) (get_string cj payload "location");
    model_name = Option.map (copy_string 256) (get_string cj payload "modelName");
    vendor_name = Option.map (copy_string 256) (get_string cj payload "vendorName");
    application_version =
        Option.map (copy_string 64) (get_string cj payload "applicationSoftwareVersion");
  }

  -- The switch on the message type.
  unfoldable pub parse_payload : MessageType → J → Parsed Payload
  unfolding parse_object_definition parse_value_update parse_object_delete parse_device_config
  parse_payload object_definition payload = do ok (definition (← parse_object_definition payload))
  parse_payload value_update payload = do ok (update (← parse_value_update payload))
  parse_payload object_delete payload = do ok (delete (← parse_object_delete payload))
  parse_payload device_config payload = ok (config (parse_device_config payload))
  parse_payload unknown payload = err unknown_message_type

  -- The time of arrival in milliseconds, if the message has a timestamp at all.
  abbrev pub arrival : ℕ → Option Bytes → ℕ
  arrival now none = 0
  arrival now (some text) = now * 1000

  abbrev pub position_of : Option ℕ → ℕ
  position_of none = 0
  position_of (some d) = fpu.u64_of_double d

  unfoldable pub parse_root : ℕ → J → Parsed ParsedMessage
  parse_root now root = do
    type_text ← required (get_string cj root "messageType")
    let message_type = parse_message_type type_text
    check (is_known message_type) unknown_message_type
    source ← required (get_string cj root "sourceId")
    item ← required (object_of cj (cj.get_item root (codes "payload")))
    payload ← parse_payload message_type item
    ok (record {
      source_id = copy_string 128 source;
      timestamp_ms = arrival now (get_string cj root "timestamp");
      stream_position = position_of (get_number cj root "streamPosition");
      correlation_id = copy_string 64 (text_field root "correlationId" []);
      payload = payload;
    })

  abbrev pub parse_tree : ℕ → Option J → Parsed ParsedMessage
  parse_tree now none = err invalid_json
  parse_tree now (some root) = parse_root now root

  -- message_handler_parse; `now` is `time(NULL)`, and NULL is no text.
  unfoldable pub message_handler_parse : ℕ → Option Bytes → Parsed ParsedMessage
  message_handler_parse now none = err invalid_json
  message_handler_parse now (some json) = parse_tree now (cj.parse json)

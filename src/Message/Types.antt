-- ===== src/Message/Types.antt =====
-- The type names of src/message_handler.c: parse_message_type, parse_object_type, parse_value_type,
-- and message_handler_error_string.
use bacnet_event_server.Base.{
  ℕ, ◌≡◌, ◌^◌, ◌-◌, Bytes, codes, str_eq, if◌then◌else◌, List, [], ◌∷◌, arith, str_eq_sound, Bool,
  false, leb,
}
use bacnet_event_server.Message.Model.{
  MessageType, unknown, object_definition, value_update, object_delete, device_config, ParseResult,
  parse_ok, invalid_json, missing_field, invalid_type, invalid_value, unknown_message_type,
  type_real, type_unsigned, type_signed, type_boolean, type_enumerated,
}

unfoldable pub parse_message_type : Bytes → MessageType
parse_message_type s =
    if str_eq s (codes "ObjectDefinition")
    then object_definition
    else if str_eq s (codes "ValueUpdate")
    then value_update
    else if str_eq s (codes "ObjectDelete")
    then object_delete
    else if str_eq s (codes "DeviceConfig")
    then device_config
    else unknown

-- The value -1 of the enumeration, an unsigned 32-bit word.
abbrev pub no_type : ℕ
no_type = 2 ^ 32 - 1

unfoldable pub parse_object_type : Bytes → ℕ
parse_object_type s =
    if str_eq s (codes "analog-input")
    then 0
    else if str_eq s (codes "analog-output")
    then 1
    else if str_eq s (codes "analog-value")
    then 2
    else if str_eq s (codes "binary-input")
    then 3
    else if str_eq s (codes "binary-output")
    then 4
    else if str_eq s (codes "binary-value")
    then 5
    else if str_eq s (codes "multi-state-input")
    then 13
    else if str_eq s (codes "multi-state-output")
    then 14
    else if str_eq s (codes "multi-state-value")
    then 19
    else no_type

-- The test `(int)type < 0`.
abbrev pub is_negative : ℕ → Bool
is_negative t = leb (2 ^ 31) t

unfoldable pub parse_value_type : Bytes → ℕ
parse_value_type s =
    if str_eq s (codes "real")
    then type_real
    else if str_eq s (codes "unsigned")
    then type_unsigned
    else if str_eq s (codes "signed")
    then type_signed
    else if str_eq s (codes "boolean")
    then type_boolean
    else if str_eq s (codes "enumerated")
    then type_enumerated
    else type_real

unfoldable pub error_string : ParseResult → Bytes
error_string parse_ok = codes "OK"
error_string invalid_json = codes "Invalid JSON"
error_string missing_field = codes "Missing required field"
error_string invalid_type = codes "Invalid type"
error_string invalid_value = codes "Invalid value"
error_string unknown_message_type = codes "Unknown message type"

-- The names of the object types, for the statements.
abbrev pub type_names : List (Bytes × ℕ)
type_names =
    (codes "analog-input", 0)
    ∷ (codes "analog-output", 1)
    ∷ (codes "analog-value", 2)
    ∷ (codes "binary-input", 3)
    ∷ (codes "binary-output", 4)
    ∷ (codes "binary-value", 5)
    ∷ (codes "multi-state-input", 13)
    ∷ (codes "multi-state-output", 14)
    ∷ (codes "multi-state-value", 19)
    ∷ []

-- Two texts with the same object type, if it is one, are the same text.
pub parse_object_type-injective :
    (a b : Bytes)
    → is_negative (parse_object_type a) ≡ false
    → parse_object_type a ≡ parse_object_type b
    → a ≡ b
unfolding parse_object_type
parse_object_type-injective a b h e = ground (
  arith,
  str_eq_sound a (codes "analog-input"),
  str_eq_sound b (codes "analog-input"),
  str_eq_sound a (codes "analog-output"),
  str_eq_sound b (codes "analog-output"),
  str_eq_sound a (codes "analog-value"),
  str_eq_sound b (codes "analog-value"),
  str_eq_sound a (codes "binary-input"),
  str_eq_sound b (codes "binary-input"),
  str_eq_sound a (codes "binary-output"),
  str_eq_sound b (codes "binary-output"),
  str_eq_sound a (codes "binary-value"),
  str_eq_sound b (codes "binary-value"),
  str_eq_sound a (codes "multi-state-input"),
  str_eq_sound b (codes "multi-state-input"),
  str_eq_sound a (codes "multi-state-output"),
  str_eq_sound b (codes "multi-state-output"),
  str_eq_sound a (codes "multi-state-value"),
  str_eq_sound b (codes "multi-state-value"),
)

-- ===== src/Message/Requirements.antt =====
-- Which error the parser of src/message_handler.c reports: the first unmet requirement of a table.
use bacnet_event_server.Base.{
  ℕ, ◌≡◌, refl, Bool, false, not, List, [], ◌∷◌, ◌++◌, Option, none, some, Bytes, codes,
  if◌then◌else◌, is_some, arith, Option-cases, inl, inr, String,
}
use bacnet_event_server.Base.Json.{CJson}
use bacnet_event_server.Base.Words.{Fpu}
use bacnet_event_server.Message.Model.{
  MessageType, unknown, object_definition, value_update, object_delete, device_config, ParseResult,
  invalid_json, missing_field, invalid_value, unknown_message_type,
}
use bacnet_event_server.Message.Types.{parse_message_type, parse_object_type, is_negative}
use bacnet_event_server.Message.Fields.{
  Parsed, ok, err, or_default, object_of, get_string, get_number,
}
use bacnet_event_server.Message.Parse.{
  parse_object_id, parse_object_definition, parse_value_update, parse_object_delete, parse_payload,
  is_known, parse_root, parse_tree, message_handler_parse,
}

abbrev pub Requirements : Type 0
Requirements = List (Bool × ParseResult)

-- The error of the first requirement that does not hold.
abbrev pub first_failure : Requirements → Option ParseResult
first_failure [] = none
first_failure ((met, e) ∷ rest) = let later = first_failure rest in if met then later else some e

abbrev pub error_of {ℓ} : {A : Type ℓ} → Parsed A → Option ParseResult
error_of (ok a) = none
error_of (err e) = some e

module _ {J : Type 0} (cj : CJson J) (fpu : Fpu) where
  abbrev pub has_string : J → String → Bool
  has_string obj key = is_some (get_string cj obj key)

  abbrev pub has_number : J → String → Bool
  has_number obj key = is_some (get_number cj obj key)

  -- A text, empty if it is missing.
  abbrev pub text_at : J → String → Bytes
  text_at obj key = or_default (get_string cj obj key) []

  abbrev pub id_requirements : J → Requirements
  id_requirements payload =
      (has_string payload "objectType", missing_field)
      ∷ (not (is_negative (parse_object_type (text_at payload "objectType"))), invalid_value)
      ∷ (has_number payload "objectInstance", missing_field)
      ∷ []

  abbrev pub definition_requirements : J → Requirements
  definition_requirements payload =
      (has_string payload "objectName", missing_field)
      ∷ (has_string payload "presentValueType", missing_field)
      ∷ []

  abbrev pub update_requirements : J → Requirements
  update_requirements payload =
      (is_some (cj.get_item payload (codes "presentValue")), missing_field) ∷ []

  abbrev pub payload_requirements : MessageType → J → Requirements
  payload_requirements object_definition payload =
      id_requirements payload ++ definition_requirements payload
  payload_requirements value_update payload = id_requirements payload ++ update_requirements payload
  payload_requirements object_delete payload = id_requirements payload
  payload_requirements device_config payload = []
  payload_requirements unknown payload = (false, unknown_message_type) ∷ []

  abbrev pub type_at : J → MessageType
  type_at root = parse_message_type (text_at root "messageType")

  abbrev pub payload_at : J → Option J
  payload_at root = object_of cj (cj.get_item root (codes "payload"))

  abbrev pub nested : MessageType → Option J → Requirements
  nested t none = []
  nested t (some payload) = payload_requirements t payload

  abbrev pub root_requirements : J → Requirements
  root_requirements root =
      (has_string root "messageType", missing_field)
      ∷ (is_known (type_at root), unknown_message_type)
      ∷ (has_string root "sourceId", missing_field)
      ∷ (is_some (payload_at root), missing_field)
      ∷ nested (type_at root) (payload_at root)

  abbrev pub tree_requirements : Option J → Requirements
  tree_requirements none = (false, invalid_json) ∷ []
  tree_requirements (some root) = root_requirements root

  abbrev pub requirements : Option Bytes → Requirements
  requirements none = (false, invalid_json) ∷ []
  requirements (some json) = tree_requirements (cj.parse json)

  id_errors :
      (payload : J)
      → error_of (parse_object_id cj fpu payload) ≡ first_failure (id_requirements payload)
  unfolding parse_object_id
  id_errors payload = ground arith

  payload_errors :
      (t : MessageType) (payload : J)
      → error_of (parse_payload cj fpu t payload) ≡ first_failure (payload_requirements t payload)
  unfolding parse_payload parse_object_definition parse_value_update parse_object_delete
      parse_object_id
  payload_errors object_definition payload = ground arith
  payload_errors value_update payload = ground arith
  payload_errors object_delete payload = ground arith
  payload_errors device_config payload = refl
  payload_errors unknown payload = refl

  root_errors :
      (now : ℕ) (root : J)
      → error_of (parse_root cj fpu now root) ≡ first_failure (root_requirements root)
  unfolding parse_root
  root_errors now root = elim (Option-cases (payload_at root)) [
    | inl absent ↦ ground arith
    | inr (payload, present) ↦ ground (arith, payload_errors (type_at root) payload)
  ]

  tree_errors :
      (now : ℕ) (tree : Option J)
      → error_of (parse_tree cj fpu now tree) ≡ first_failure (tree_requirements tree)
  tree_errors now none = refl
  tree_errors now (some root) = root_errors now root

  -- message_handler_parse fails exactly if a requirement of the table is unmet, with the error of the
  -- first one: a text that parses, a known message type, a source, a payload object, and what the
  -- type of message asks of the payload. A time stamp is not required; the schema in
  -- docs/kurrentdb-message-schema.json requires one, and no payload.
  pub parse_errors :
      (now : ℕ) (json : Option Bytes)
      → error_of (message_handler_parse cj fpu now json) ≡ first_failure (requirements json)
  unfolding message_handler_parse
  parse_errors now none = refl
  parse_errors now (some json) = tree_errors now (cj.parse json)

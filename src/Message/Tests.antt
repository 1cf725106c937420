-- ===== src/Message/Tests.antt =====
-- The parser at concrete messages, and each theorem at one that meets its hypotheses.
use bacnet_event_server.Base.{◌≡◌, refl, true, false, [], ◌∷◌, some, Bytes, codes, str_eq}
use bacnet_event_server.Base.Samples.{whole, Doc, text, number, nil, field, item, member, documents}
use bacnet_event_server.Message.Model.{
  ObjectDefinition, ParsedMessage, definition, missing_field, invalid_value,
}
use bacnet_event_server.Message.Fields.{ok, err, get_string, get_number, get_bool}
use bacnet_event_server.Message.Types.{parse_message_type, parse_object_type, parse_value_type}
use bacnet_event_server.Message.Parse.{
  parse_object_id, parse_object_definition, parse_value_update, parse_object_delete, parse_payload,
  parse_root, message_handler_parse,
}
use bacnet_event_server.Message.Requirements.{error_of, parse_errors}
use bacnet_event_server.Message.WellFormed.{IsWellFormed, parse-IsWellFormed}
use bacnet_event_server.Message.Process.{cached_object}
use bacnet_event_server.Message.Lossless.{Carries, parsed-Carries}

abbrev envelope : Bytes → Doc → Doc
envelope message_type payload = field (codes "messageType") (text message_type) (
    field (codes "sourceId") (text (codes "plant"))
      (field (codes "streamPosition") (number 42) (field (codes "payload") payload nil)))

abbrev mode_payload : Doc
mode_payload = field (codes "objectType") (text (codes "multi-state-value")) (
    field (codes "objectInstance") (number 3) (
      field (codes "objectName") (text (codes "mode")) (
        field (codes "presentValueType") (text (codes "unsigned")) (
          field (codes "initialValue") (number 2) (
            field (codes "stateTexts") (item (text (codes "off")) (item (text (codes "on")) nil))
              nil)))))

abbrev mode_message : Doc
mode_message = envelope (codes "ObjectDefinition") mode_payload

abbrev mode : ObjectDefinition
mode = record {
  object_type = 19;
  object_instance = 3;
  object_name = codes "mode";
  description = [];
  value_type = 1;
  units = 95;
  units_text = [];
  cov_increment = 0;
  min_value = 0;
  max_value = 0;
  state_texts = codes "off" ∷ codes "on" ∷ [];
  state_count = 2;
  inactive_text = codes "Inactive";
  active_text = codes "Active";
  supports_priority_array = false;
  has_initial_value = true;
  initial_value = 2;
}

abbrev mode_parsed : ParsedMessage
mode_parsed = record {
  source_id = codes "plant";
  timestamp_ms = 0;
  stream_position = 42;
  correlation_id = [];
  payload = definition mode;
}

-- One name for all that a parse computes with.
parser : Unit {0}
unfolding member str_eq parse_message_type parse_object_type parse_value_type get_string get_number
    get_bool parse_object_id parse_object_definition parse_value_update parse_object_delete
    parse_payload parse_root message_handler_parse
parser = tt

mode_parses :
    message_handler_parse (documents mode_message) whole 100 (some (codes "{}")) ≡ ok mode_parsed
unfolding parser
mode_parses = refl

no_payload :
    message_handler_parse
      (documents (field (codes "messageType") (text (codes "ValueUpdate")) nil))
      whole
      100
      (some (codes "{}"))
    ≡ err missing_field
unfolding parser
no_payload = refl

parse-IsWellFormed_example : IsWellFormed mode_parsed
parse-IsWellFormed_example =
    parse-IsWellFormed (documents mode_message) whole 100 (some (codes "{}")) mode_parsed
      mode_parses

parsed-Carries_example : Carries mode 1000 (cached_object 100 mode 1000)
parsed-Carries_example =
    parsed-Carries (documents mode_message) whole 100 1000 (some (codes "{}")) mode_parsed mode
      mode_parses refl

abbrev lamp_message : Doc
lamp_message = envelope (codes "ObjectDelete") (
    field (codes "objectType") (text (codes "lamp"))
      (field (codes "objectInstance") (number 1) nil))

parse_errors_example :
    error_of (message_handler_parse (documents lamp_message) whole 100 (some (codes "{}")))
    ≡ some invalid_value
unfolding parser
parse_errors_example = parse_errors (documents lamp_message) whole 100 (some (codes "{}"))

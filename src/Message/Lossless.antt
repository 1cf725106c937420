-- ===== src/Message/Lossless.antt =====
-- From a parsed definition to the cached object: the second copy of every string.
use bacnet_event_server.Base.{
  take_enough, ℕ, ◌≡◌, refl, ap, sym, ◌∙◌, List, [], ◌∷◌, Option, Bytes, arith, length, take, map,
  All, if◌then◌else◌,
}
use bacnet_event_server.Base.Json.{CJson}
use bacnet_event_server.Base.Words.{Fpu, add32}
use bacnet_event_server.Message.Model.{ObjectDefinition, definition, ParsedMessage, CachedObject}
use bacnet_event_server.Message.Fields.{ok}
use bacnet_event_server.Message.Parse.{message_handler_parse}
use bacnet_event_server.Message.WellFormed.{Fits, DefinitionIsWellFormed, parse-IsWellFormed}
use bacnet_event_server.Message.Process.{cached_object}

map-take_enough : (texts : List Bytes) → All (Fits 64) texts → map (take 63) texts ≡ texts
map-take_enough [] h = refl
map-take_enough (t ∷ texts) h = cc (take_enough 63 t (omega arith), map-take_enough texts h.1)

-- The strings and numbers of the definition, with the instance moved by the offset.
pub record Carries (d : ObjectDefinition) (offset : ℕ) (o : CachedObject) : Type 0 where
  pub object_type : o.object_type ≡ d.object_type
  pub object_instance : o.object_instance ≡ add32 d.object_instance offset
  pub object_name : o.object_name ≡ d.object_name
  pub description : o.description ≡ d.description
  pub value_type : o.value_type ≡ d.value_type
  pub units_text : o.units_text ≡ d.units_text
  pub state_texts : o.state_texts ≡ d.state_texts
  pub state_count : o.state_count ≡ length o.state_texts
  pub inactive_text : o.inactive_text ≡ d.inactive_text
  pub active_text : o.active_text ≡ d.active_text
  pub present_value : o.present_value ≡ (if d.has_initial_value then d.initial_value else 0)

cached_object-Carries :
    (now offset : ℕ) (d : ObjectDefinition)
    → DefinitionIsWellFormed d
    → Carries d offset (cached_object now d offset)
unfolding cached_object
cached_object-Carries now offset d w =
    let texts : map (take 63) (take d.state_count d.state_texts) ≡ d.state_texts =
      ap (map (take 63)) (take_enough d.state_count d.state_texts (omega arith))
      ∙ map-take_enough d.state_texts w.states_fit in
    record {
      object_type = refl;
      object_instance = refl;
      object_name = take_enough 255 d.object_name (omega arith);
      description = take_enough 511 d.description (omega arith);
      value_type = refl;
      units_text = take_enough 63 d.units_text (omega arith);
      state_texts = texts;
      state_count = w.states_counted ∙ ap length (sym texts);
      inactive_text = take_enough 63 d.inactive_text (omega arith);
      active_text = take_enough 63 d.active_text (omega arith);
      present_value = refl;
    }

-- The object that is cached for a parsed definition has the definition's types, strings, state texts
-- and initial value unshortened; the instance is the sum of instance and offset modulo 2^32.
pub parsed-Carries :
    {J : Type 0} (cj : CJson J) (fpu : Fpu) (now offset : ℕ) (json : Option Bytes)
    (m : ParsedMessage) (d : ObjectDefinition)
    → message_handler_parse cj fpu now json ≡ ok m
    → m.payload ≡ definition d
    → Carries d offset (cached_object now d offset)
parsed-Carries cj fpu now offset json m d e p =
    cached_object-Carries now offset d
      (rw p at ((parse-IsWellFormed cj fpu now json m e).payload_well_formed))

-- ===== src/Message/WellFormed.antt =====
-- Well-formedness of the messages that src/message_handler.c parses: buffers, types, counts.
pub mod Parts
unfoldable pub use Parts.*
use bacnet_event_server.Base.{
  ℕ, zero, suc, ◌<◌, ◌≤◌, ◌≡◌, refl, subst, Bool, true, false, List, [], ◌∷◌, Option, none, some,
  Bytes, codes, arith, length, take, map, All, length-take, length-copy_string, copy_string,
  Bool-cases, inl, inr, ◌==◌, ◌||◌, leb,
}
use mathlib.Core.Option
use bacnet_event_server.Base.Json.{CJson}
use bacnet_event_server.Base.Words.{Fpu}
use bacnet_event_server.Message.Model.{
  MessageType, unknown, object_definition, value_update, object_delete, device_config,
  ObjectDefinition, ValueUpdate, ObjectDelete, DeviceConfig, Payload, definition, update, delete,
  config, ParsedMessage,
}
use bacnet_event_server.Message.Types.{
  parse_message_type, parse_object_type, parse_value_type, is_negative,
}
use bacnet_event_server.Message.Fields.{
  Parsed, ok, err, or_default, ◌>>=◌, required, check, get_string, get_number, object_of,
}
use bacnet_event_server.Message.Parse.{
  parse_object_id, parse_object_definition, parse_value_update, parse_object_delete,
  parse_device_config, parse_payload, parse_root, parse_tree, message_handler_parse, update_type,
  state_texts_of, is_known,
}

-- A property of the value of a successful parse.
abbrev pub Ensures {ℓ κ} : {A : Type ℓ} → (A → Type κ) → Parsed A → Type κ
Ensures P (ok a) = P a
Ensures P (err e) = Unit

Ensures-bind {ℓ κ μ} :
    {A : Type ℓ} {B : Type κ} (P : A → Type μ) (Q : B → Type μ) (m : Parsed A) (f : A → Parsed B)
    → Ensures P m
    → ((a : A) → P a → Ensures Q (f a))
    → Ensures Q (m >>= f)
Ensures-bind P Q (ok a) f h k = k a h
Ensures-bind P Q (err e) f h k = tt

-- A part of which nothing is asked.
Ensures-any {ℓ κ} :
    {A : Type ℓ} {B : Type κ} (Q : B → Type 0) (m : Parsed A) (f : A → Parsed B)
    → ((a : A) → Ensures Q (f a))
    → Ensures Q (m >>= f)
Ensures-any Q (ok a) f k = k a
Ensures-any Q (err e) f k = tt

parse_object_type-is_listed :
    (s : Bytes) → is_negative (parse_object_type s) ≡ false → is_listed (parse_object_type s) ≡ true
unfolding parse_object_type
parse_object_type-is_listed s h = ground arith

parse_value_type-le : (s : Bytes) → parse_value_type s ≤ 4
unfolding parse_value_type
parse_value_type-le s = ground arith

copy-OptionFits :
    (size : ℕ) (s : Option Bytes) → 0 < size → OptionFits size (Option.map (copy_string size) s)
copy-OptionFits size none h = tt
copy-OptionFits size (some s) h = omega (arith, length-copy_string size s)

copy-Fits : (n : ℕ) (s : Bytes) → Fits (suc n) (take n s)
copy-Fits n s = omega (arith, length-take n s)

text-Fits : (t : Bytes) → Fits 64 (take 63 t)
text-Fits t = omega (arith, length-take 63 t)

take-Fits :
    (n : ℕ) (texts : List (Option Bytes))
    → All (Fits 64) (map (λ t. take 63 (or_default t [])) (take n texts))
take-Fits zero texts = tt
take-Fits (suc n) [] = tt
take-Fits (suc n) (t ∷ texts) = (text-Fits (or_default t []), take-Fits n texts)

states_fit : (texts : Option (List (Option Bytes))) → All (Fits 64) (state_texts_of texts)
states_fit none = tt
states_fit (some texts) = take-Fits 16 texts

length-take_texts :
    (n : ℕ) (texts : List (Option Bytes))
    → length (map (λ t. take 63 (or_default t [])) (take n texts)) ≤ n
length-take_texts zero texts = omega arith
length-take_texts (suc n) [] = omega arith
length-take_texts (suc n) (t ∷ texts) = omega (arith, length-take_texts n texts)

states_bounded : (texts : Option (List (Option Bytes))) → length (state_texts_of texts) ≤ 16
states_bounded none = omega arith
states_bounded (some texts) = length-take_texts 16 texts

update_type-IsTyped : (t : ℕ) → is_listed t ≡ true → IsTyped t (update_type t)
unfolding update_type
update_type-IsTyped t h = elim (Bool-cases (leb t 2)) [
  | inl low ↦ analog (ground (arith, low)) (ground (arith, low))
  | inr above ↦ elim (Bool-cases (leb t 5)) [
    | inl middle ↦
        binary (ground (arith, above)) (ground (arith, middle)) (ground (arith, above, middle))
    | inr high ↦ elim (Bool-cases (t == 13)) [
      | inl first ↦ multi_state (inl (ground (arith, first))) (ground (arith, first))
      | inr next ↦ elim (Bool-cases (t == 14)) [
        | inl second ↦ multi_state (inr (inl (ground (arith, second)))) (ground (arith, second))
        | inr last ↦
            let third : t ≡ 19 = ground (arith, h, above, high, next, last) in
            multi_state (inr (inr third)) (ground (arith, third))
      ]
    ]
  ]
]

module _ {J : Type 0} (cj : CJson J) (fpu : Fpu) where
  id_listed : (payload : J) → Ensures (λ p. is_listed p.0 ≡ true) (parse_object_id cj fpu payload)
  unfolding parse_object_id
  id_listed payload = Ensures-any _ (required (get_string cj payload "objectType")) _ λ text.
      elim (Bool-cases (is_negative (parse_object_type text))) [
        | inl bad ↦ rw bad tt
        | inr good ↦ rw good (
            Ensures-any _ (required (get_number cj payload "objectInstance")) _
              λ number. parse_object_type-is_listed text good)
      ]

  definition_well_formed :
      (payload : J) → Ensures DefinitionIsWellFormed (parse_object_definition cj fpu payload)
  unfolding parse_object_definition
  definition_well_formed payload =
      Ensures-bind _ _ (parse_object_id cj fpu payload) _ (id_listed payload) λ id listed.
        Ensures-any _ (required (get_string cj payload "objectName")) _ λ name.
          Ensures-any _ (required (get_string cj payload "presentValueType")) _ λ value_text.
            record {
              listed = listed;
              typed = parse_value_type-le value_text;
              name_fits = copy-Fits 255 name;
              description_fits = copy-Fits 511 _;
              units_fit = copy-Fits 63 _;
              inactive_fits = copy-Fits 63 _;
              active_fits = copy-Fits 63 _;
              states_counted = refl;
              states_bounded = states_bounded _;
              states_fit = states_fit _;
            }

  update_well_formed :
      (payload : J) → Ensures UpdateIsWellFormed (parse_value_update cj fpu payload)
  unfolding parse_value_update
  update_well_formed payload =
      Ensures-bind _ _ (parse_object_id cj fpu payload) _ (id_listed payload) λ id listed.
        Ensures-any _ (required (cj.get_item payload (codes "presentValue"))) _ λ item. record {
          listed = listed;
          typed = update_type-IsTyped id.0 listed;
          quality_fits = copy-Fits 15 _;
        }

  delete_well_formed :
      (payload : J) → Ensures DeleteIsWellFormed (parse_object_delete cj fpu payload)
  unfolding parse_object_delete
  delete_well_formed payload =
      Ensures-bind _ _ (parse_object_id cj fpu payload) _ (id_listed payload)
        λ id listed. record { listed = listed; reason_fits = copy-Fits 255 _ }

  config_well_formed : (payload : J) → ConfigIsWellFormed (parse_device_config cj fpu payload)
  unfolding parse_device_config
  config_well_formed payload = record {
    name_fits = copy-OptionFits 256 _ (omega arith);
    description_fits = copy-OptionFits 512 _ (omega arith);
    location_fits = copy-OptionFits 256 _ (omega arith);
    model_fits = copy-OptionFits 256 _ (omega arith);
    vendor_fits = copy-OptionFits 256 _ (omega arith);
    version_fits = copy-OptionFits 64 _ (omega arith);
  }

  payload_well_formed :
      (t : MessageType) (payload : J) → Ensures PayloadIsWellFormed (parse_payload cj fpu t payload)
  unfolding parse_payload
  payload_well_formed object_definition payload =
      Ensures-bind _ _ (parse_object_definition cj fpu payload) _ (definition_well_formed payload)
        λ d h. h
  payload_well_formed value_update payload =
      Ensures-bind _ _ (parse_value_update cj fpu payload) _ (update_well_formed payload) λ u h. h
  payload_well_formed object_delete payload =
      Ensures-bind _ _ (parse_object_delete cj fpu payload) _ (delete_well_formed payload) λ d h. h
  payload_well_formed device_config payload = config_well_formed payload
  payload_well_formed unknown payload = tt

  root-IsWellFormed : (now : ℕ) (root : J) → Ensures IsWellFormed (parse_root cj fpu now root)
  unfolding parse_root
  root-IsWellFormed now root =
      Ensures-any _ (required (get_string cj root "messageType")) _ λ type_text.
        Ensures-any _ (check (is_known (parse_message_type type_text)) _) _ λ _.
          Ensures-any _ (required (get_string cj root "sourceId")) _ λ source.
            Ensures-any _ (required (object_of cj (cj.get_item root (codes "payload")))) _ λ item.
              Ensures-bind _ _ (parse_payload cj fpu (parse_message_type type_text) item) _
                (payload_well_formed (parse_message_type type_text) item)
                λ payload h. record {
                  source_fits = copy-Fits 127 _;
                  correlation_fits = copy-Fits 63 _;
                  payload_well_formed = h;
                }

  tree-IsWellFormed :
      (now : ℕ) (tree : Option J) → Ensures IsWellFormed (parse_tree cj fpu now tree)
  tree-IsWellFormed now none = tt
  tree-IsWellFormed now (some root) = root-IsWellFormed now root

  text-IsWellFormed :
      (now : ℕ) (json : Option Bytes) → Ensures IsWellFormed (message_handler_parse cj fpu now json)
  unfolding message_handler_parse
  text-IsWellFormed now none = tt
  text-IsWellFormed now (some json) = tree-IsWellFormed now (cj.parse json)

  -- Every message that message_handler_parse accepts is well formed: each string fits its buffer with
  -- its terminator, the object type is one of the nine, at most 16 state texts are counted, the value
  -- type of a definition is one of the five of the protocol, and that of an update is real for an analog object,
  -- Boolean for a binary and unsigned for a multi-state one.
  pub parse-IsWellFormed :
      (now : ℕ) (json : Option Bytes) (m : ParsedMessage)
      → message_handler_parse cj fpu now json ≡ ok m
      → IsWellFormed m
  parse-IsWellFormed now json m e = subst (Ensures IsWellFormed) e (text-IsWellFormed now json)

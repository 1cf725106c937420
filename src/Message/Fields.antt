-- ===== src/Message/Fields.antt =====
-- The results of a parser, and reading typed fields of a JSON object: get_string_safe,
-- get_number_safe and get_bool_safe of src/message_handler.c.
use bacnet_event_server.Base.{
  ℕ, Bool, true, false, Option, none, some, Bytes, if◌then◌else◌, String, codes,
}
use bacnet_event_server.Base.Json.{CJson}
use bacnet_event_server.Message.Model.{ParseResult, missing_field}

pub data Parsed {ℓ} (A : Type ℓ) : Type ℓ where
  ok : A → Parsed A
  err : ParseResult → Parsed A

infixl 5 ◌>>=◌ ◌>>◌
abbrev pub ◌>>=◌ {ℓ κ} : {A : Type ℓ} {B : Type κ} → Parsed A → (A → Parsed B) → Parsed B
ok a >>= f = f a
err e >>= f = err e

abbrev pub ◌>>◌ {ℓ} : {B : Type ℓ} → Parsed (Unit {0}) → Parsed B → Parsed B
m >> k = m >>= λ _. k

-- A required value.
abbrev pub required {ℓ} : {A : Type ℓ} → Option A → Parsed A
required none = err missing_field
required (some a) = ok a

-- An early return unless a test holds.
abbrev pub check : Bool → ParseResult → Parsed (Unit {0})
check true e = ok tt
check false e = err e

abbrev pub or_default {ℓ} : {A : Type ℓ} → Option A → A → A
or_default none d = d
or_default (some a) d = a

module _ {J : Type 0} (cj : CJson J) where
  abbrev pub string_of : Option J → Option Bytes
  string_of none = none
  string_of (some item) = cj.string_value item

  -- cJSON_IsNumber, with the number; the test fails on a missing item.
  abbrev pub number_of : Option J → Option ℕ
  number_of none = none
  number_of (some item) = if cj.is_number item then some (cj.number item) else none

  abbrev pub bool_of : Option J → Option Bool
  bool_of none = none
  bool_of (some item) = if cj.is_bool item then some (cj.is_true item) else none

  -- cJSON_IsObject, with the object.
  abbrev pub object_of : Option J → Option J
  object_of none = none
  object_of (some item) = if cj.is_object item then some item else none

  -- get_string_safe with a NULL default.
  unfoldable pub get_string : J → String → Option Bytes
  get_string obj key = string_of (cj.get_item obj (codes key))

  unfoldable pub get_number : J → String → Option ℕ
  get_number obj key = number_of (cj.get_item obj (codes key))

  unfoldable pub get_bool : J → String → Bool → Bool
  get_bool obj key d = or_default (bool_of (cj.get_item obj (codes key))) d

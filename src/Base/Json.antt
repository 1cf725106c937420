-- ===== src/Base/Json.antt =====
-- The cJSON library, which the program calls and does not contain: its parser and its accessors, over
-- the library's own type of nodes.
use mathlib.Core.Bool.{Bool}
use mathlib.Core.Option.{Option}
use mathlib.Core.List.{List}
use Prim.Native.Nat.{ℕ}
use bacnet_event_server.Base.Text.{Bytes}

-- `string_value` is the text of a node for which cJSON_IsString holds (with its `valuestring`).
-- `number` is `valuedouble`, a field that every node has.
pub record CJson (J : Type 0) : Type 0 where
  pub parse : Bytes → Option J
  pub get_item : J → Bytes → Option J
  pub string_value : J → Option Bytes
  pub is_number : J → Bool
  pub number : J → ℕ
  pub is_bool : J → Bool
  pub is_true : J → Bool
  pub is_object : J → Bool
  pub array_items : J → Option (List J)

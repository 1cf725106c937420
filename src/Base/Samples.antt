-- ===== src/Base/Samples.antt =====
-- A concrete JSON library and concrete floating point, at which the theorems are tried out.
use bacnet_event_server.Base.Tests.{leb, ◌==◌, if◌then◌else◌}
use bacnet_event_server.Base.Text.{Bytes, str_eq}
use bacnet_event_server.Base.Decimal.{print_nat}
use bacnet_event_server.Base.Json.{CJson}
use bacnet_event_server.Base.Words.{Fpu}
use Prim.Native.Nat.{ℕ, ◌+◌, ◌-◌}
use mathlib.Core.Bool.{Bool, true, false, not}
use mathlib.Core.List.{List, [], ◌∷◌}
use mathlib.Core.Option.{Option, none, some}

-- Arithmetic whose doubles are whole numbers, each its own pattern.
abbrev pub whole : Fpu
whole = record {
  zero_double = 0;
  one_double = 1;
  widen = λ x. x;
  narrow = λ x. x;
  double_of_u32 = λ x. x;
  double_of_i32 = λ x. x;
  u32_of_double = λ x. x;
  i32_of_double = λ x. x;
  u64_of_double = λ x. x;
  i64_of_double = λ x. x;
  u8_of_double = λ x. x;
  add = λ x y. x + y;
  le = λ x y. leb x y;
  sub = λ x y. (x - y) + (y - x);
  fabs = λ x. x;
  ge = λ x y. leb y x;
  ne = λ x y. not (x == y);
  float_le_zero = λ x. x == 0;
  print_fixed = λ x. print_nat x;
}

-- JSON values; an object or an array is a chain of its members, ended by `nil`.
pub data Doc : Type 0 where
  text : Bytes → Doc
  number : ℕ → Doc
  flag : Bool → Doc
  nil : Doc
  field : Bytes → Doc → Doc → Doc
  item : Doc → Doc → Doc

unfoldable pub member : Doc → Bytes → Option Doc
unfolding str_eq
member (field name value rest) key =
    let later = member rest key in if str_eq name key then some value else later
member _ key = none

abbrev pub text_of : Doc → Option Bytes
text_of (text s) = some s
text_of _ = none

abbrev pub is_number : Doc → Bool
is_number (number n) = true
is_number _ = false

abbrev pub number_of : Doc → ℕ
number_of (number n) = n
number_of _ = 0

abbrev pub is_flag : Doc → Bool
is_flag (flag b) = true
is_flag _ = false

abbrev pub flag_of : Doc → Bool
flag_of (flag b) = b
flag_of _ = false

abbrev pub is_object : Doc → Bool
is_object (field name value rest) = true
is_object _ = false

abbrev cons_item : Doc → Option (List Doc) → Option (List Doc)
cons_item d none = none
cons_item d (some ds) = some (d ∷ ds)

abbrev pub items : Doc → Option (List Doc)
items nil = some []
items (item d rest) = cons_item d (items rest)
items _ = none

-- The library that parses every text but the empty one to `doc`.
abbrev parse_to : Doc → Bytes → Option Doc
parse_to doc [] = none
parse_to doc (_ ∷ _) = some doc

abbrev pub documents : Doc → CJson Doc
documents doc = record {
  parse = parse_to doc;
  get_item = member;
  string_value = text_of;
  is_number = is_number;
  number = number_of;
  is_bool = is_flag;
  is_true = flag_of;
  is_object = is_object;
  array_items = items;
}

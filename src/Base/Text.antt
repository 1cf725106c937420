-- ===== src/Base/Text.antt =====
-- C strings as lists of bytes without the terminator, and the libc calls the program makes on them.
use Prim.Native.Nat.{ℕ, ◌-◌, ◌≤◌}
use Prim.Native.Char.{code}
use Prim.Native.String.{String}
use mathlib.Core.Path.{◌≡◌, refl}
use mathlib.Core.Logic.{◌↔◌, ◌≢◌, inl, inr}
use mathlib.Core.Bool.{Bool, true, false, ◌&&◌}
use mathlib.Core.List.{List, [], ◌∷◌}
use native.Mathlib.Omega.{arith}
use bacnet_event_server.Base.Tests.{◌==◌, Bool-cases}
use bacnet_event_server.Base.Lists.{length, take, length-take}

abbrev pub Bytes : Type 0
Bytes = List ℕ

-- A text literal: its code points, which are its bytes for ASCII.
abbrev pub codes : String → Bytes
codes String.[] = []
codes (String.◌∷◌ c s) = code c ∷ codes s

-- `strcmp(a, b) == 0`, and `memcmp` of two blocks of equal length.
unfoldable pub str_eq : Bytes → Bytes → Bool
str_eq [] [] = true
str_eq [] (_ ∷ _) = false
str_eq (_ ∷ _) [] = false
str_eq (a ∷ s) (b ∷ t) = a == b && str_eq s t

pub str_eq_sound : (a b : Bytes) → str_eq a b ≡ true → a ≡ b
unfolding str_eq
str_eq_sound [] [] h = refl
str_eq_sound [] (y ∷ b) h = cc
str_eq_sound (x ∷ a) [] h = cc
str_eq_sound (x ∷ a) (y ∷ b) h = ground (arith, str_eq_sound a b)

pub str_eq_refl : (a : Bytes) → str_eq a a ≡ true
unfolding str_eq
str_eq_refl [] = refl
str_eq_refl (x ∷ a) = ground (arith, str_eq_refl a)

pub str_eq_iff : (a b : Bytes) → (str_eq a b ≡ true) ↔ (a ≡ b)
str_eq_iff a b = (str_eq_sound a b, λ e. rw e (str_eq_refl b))

pub str_eq_apart : (a b : Bytes) → a ≢ b → str_eq a b ≡ false
str_eq_apart a b h = elim (Bool-cases (str_eq a b)) [
  | inl same ↦ absurd (h (str_eq_sound a b same))
  | inr apart ↦ apart
]

-- `strncpy(dst, src, sizeof(dst) - 1)` into a zeroed buffer of `size` bytes, read back as a string.
abbrev pub copy_string : ℕ → Bytes → Bytes
copy_string size s = take (size - 1) s

pub length-copy_string : (size : ℕ) (s : Bytes) → length (copy_string size s) ≤ size - 1
length-copy_string size s = omega (arith, length-take (size - 1) s)

-- ===== src/Base/Scan.antt =====
-- The parts of sscanf and strchr that the program uses, on strings.
use bacnet_event_server.Base.Tests.{leb, ◌==◌, if◌then◌else◌}
use Prim.Native.Nat.{ℕ, ◌+◌, ◌-◌, ◌*◌}
use mathlib.Core.Bool.{Bool, ◌&&◌, ◌||◌}
use mathlib.Core.List.{[], ◌∷◌}
use mathlib.Core.Option.{Option, none, some}
use bacnet_event_server.Base.Text.{Bytes}
use bacnet_event_server.Base.Int.{ℤ, pos, negate}

infixl 5 ◌>>=◌
abbrev pub ◌>>=◌ {ℓ κ} : {A : Type ℓ} {B : Type κ} → Option A → (A → Option B) → Option B
none >>= f = none
some a >>= f = f a

abbrev pub is_digit : ℕ → Bool
is_digit c = leb b'0' c && leb c b'9'

abbrev pub is_space : ℕ → Bool
is_space c = c == 32 || leb 9 c && leb c 13

unfoldable pub skip_spaces : Bytes → Bytes
skip_spaces [] = []
skip_spaces (c ∷ s) = if is_space c then skip_spaces s else c ∷ s

-- The digits at the front, added to the number read so far, and the rest.
unfoldable pub scan_digits : ℕ → Bytes → ℕ × Bytes
scan_digits n [] = (n, [])
scan_digits n (c ∷ s) =
    let more = scan_digits (n * 10 + (c - b'0')) s in if is_digit c then more else (n, c ∷ s)

-- `%u` and the digits of `%d`: at least one digit.
unfoldable pub scan_nat : Bytes → Option (ℕ × Bytes)
unfolding scan_digits
scan_nat [] = none
scan_nat (c ∷ s) = if is_digit c then some (scan_digits 0 (c ∷ s)) else none

abbrev pub signed_by : (ℕ → ℤ) → Option (ℕ × Bytes) → Option (ℤ × Bytes)
signed_by sign none = none
signed_by sign (some (n, s)) = some (sign n, s)

unfoldable pub scan_signed : Bytes → Option (ℤ × Bytes)
unfolding scan_nat
scan_signed [] = none
scan_signed (c ∷ s) =
    if c == b'-'
    then signed_by (λ n. negate (pos n)) (scan_nat s)
    else if c == b'+'
    then signed_by pos (scan_nat s)
    else signed_by pos (scan_nat (c ∷ s))

-- `%d`: white space, a sign, digits.
unfoldable pub scan_int : Bytes → Option (ℤ × Bytes)
unfolding skip_spaces scan_signed
scan_int s = scan_signed (skip_spaces s)

-- A literal character of the format.
abbrev pub scan_char : ℕ → Bytes → Option Bytes
scan_char c [] = none
scan_char c (d ∷ s) = if d == c then some s else none

-- strchr: the string from the first such character on.
unfoldable pub strchr : ℕ → Bytes → Option Bytes
strchr c [] = none
strchr c (d ∷ s) = if d == c then some (d ∷ s) else strchr c s

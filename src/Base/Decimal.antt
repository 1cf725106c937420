-- ===== src/Base/Decimal.antt =====
-- `%u` and `%d` of a number that is not negative, and reading it back.
use bacnet_event_server.Base.Tests.{ltb, leb, if◌then◌else◌, Bool-cases}
use bacnet_event_server.Base.Lists.{length, length-append, All}
use bacnet_event_server.Base.Text.{Bytes}
use bacnet_event_server.Base.Scan.{is_digit, scan_digits, scan_nat}
use Prim.Native.Nat.{ℕ, zero, suc, ◌+◌, ◌-◌, ◌*◌, ◌/◌, ◌%◌, ◌^◌, ◌≤◌, ◌<◌}
use mathlib.Core.Path.{◌≡◌, refl, ◌∙◌, ap}
use mathlib.Core.Logic.{inl, inr}
use mathlib.Core.Bool.{true, false}
use mathlib.Core.List.{[], ◌∷◌, ◌++◌}
use mathlib.Core.Option.{some}
use native.Mathlib.Omega.{arith}

-- The digits, the highest first; the fuel is more than the number.
unfoldable pub digits : ℕ → ℕ → Bytes
digits zero n = []
digits (suc f) n =
    let more = digits f (n / 10) ++ (b'0' + n % 10) ∷ [] in
    if ltb n 10 then (b'0' + n) ∷ [] else more

unfoldable pub print_nat : ℕ → Bytes
unfolding digits
print_nat n = digits (suc n) n

-- `%d` of a 32-bit word and `%ld` of a 64-bit word.
unfoldable pub print_signed : ℕ → ℕ → Bytes
print_signed bits w =
    if leb (2 ^ (bits - 1)) w then b'-' ∷ print_nat (2 ^ bits - w) else print_nat w

abbrev pub AreDigits : Bytes → Type 0
AreDigits s = All (λ c. is_digit c ≡ true) s

abbrev value : ℕ → Bytes → ℕ
value acc [] = acc
value acc (c ∷ s) = value (acc * 10 + (c - b'0')) s

append-AreDigits : (s t : Bytes) → AreDigits s → AreDigits t → AreDigits (s ++ t)
append-AreDigits [] t h k = k
append-AreDigits (c ∷ s) t (x, h) k = (x, append-AreDigits s t h k)

value-append : (acc : ℕ) (s t : Bytes) → value acc (s ++ t) ≡ value (value acc s) t
value-append acc [] t = refl
value-append acc (c ∷ s) t = value-append (acc * 10 + (c - b'0')) s t

digits-AreDigits : (f n : ℕ) → AreDigits (digits f n)
unfolding digits
digits-AreDigits zero n = tt
digits-AreDigits (suc f) n = elim (Bool-cases (ltb n 10)) [
  | inl small ↦ rw small (ground arith, tt)
  | inr large ↦ rw large (
      append-AreDigits (digits f (n / 10)) ((b'0' + n % 10) ∷ []) (digits-AreDigits f (n / 10))
        (ground arith, tt))
]

value-digits : (f n : ℕ) → n < f → value 0 (digits f n) ≡ n
unfolding digits
value-digits zero n h = elim h [ ]
value-digits (suc f) n h = elim (Bool-cases (ltb n 10)) [
  | inl small ↦ rw small (omega arith)
  | inr large ↦ rw large (
      ground
        (arith, value-append 0 (digits f (n / 10)) ((b'0' + n % 10) ∷ []), value-digits f (n / 10)))
]

-- What follows a number does not go on with a digit.
abbrev pub Ends : Bytes → Type 0
Ends [] = Unit {0}
Ends (c ∷ s) = is_digit c ≡ false

scan-value :
    (acc : ℕ) (s rest : Bytes)
    → AreDigits s
    → Ends rest
    → scan_digits acc (s ++ rest) ≡ (value acc s, rest)
unfolding scan_digits
scan-value acc [] [] h e = refl
scan-value acc [] (c ∷ rest) h e = rw e refl
scan-value acc (c ∷ s) rest (x, h) e = rw x (scan-value (acc * 10 + (c - b'0')) s rest h e)

digits_nonempty : (f n : ℕ) → n < f → 0 < length (digits f n)
unfolding digits
digits_nonempty zero n h = elim h [ ]
digits_nonempty (suc f) n h = elim (Bool-cases (ltb n 10)) [
  | inl small ↦ rw small (omega arith)
  | inr large ↦ rw large (longer (digits f (n / 10)) (b'0' + n % 10))
]
  where
    longer : (s : Bytes) (c : ℕ) → 0 < length (s ++ c ∷ [])
    longer [] c = omega arith
    longer (d ∷ s) c = omega arith

scan_nat-append :
    (s rest : Bytes)
    → 0 < length s
    → AreDigits s
    → Ends rest
    → scan_nat (s ++ rest) ≡ some (value 0 s, rest)
unfolding scan_nat
scan_nat-append [] rest p h e = absurd (omega arith)
scan_nat-append (c ∷ s) rest p h e =
    rw (h.0) (ap some (scan-value (0 * 10 + (c - b'0')) s rest h.1 e))

-- A number that is printed is read back, whatever follows it but a digit.
pub scan-print :
    (n : ℕ) (rest : Bytes) → Ends rest → scan_nat (print_nat n ++ rest) ≡ some (n, rest)
unfolding print_nat
scan-print n rest e =
    scan_nat-append (digits (suc n) n) rest (digits_nonempty (suc n) n (omega arith))
      (digits-AreDigits (suc n) n) e
    ∙ ap (λ m. some (m, rest)) (value-digits (suc n) n (omega arith))

pub print_nat-AreDigits : (n : ℕ) → All (λ c. is_digit c ≡ true) (print_nat n)
unfolding print_nat
print_nat-AreDigits n = digits-AreDigits (suc n) n

pub length-print_pos : (n : ℕ) → 0 < length (print_nat n)
unfolding print_nat
length-print_pos n = digits_nonempty (suc n) n (omega arith)

-- Different numbers are printed differently.
pub print_nat-injective : (m n : ℕ) → print_nat m ≡ print_nat n → m ≡ n
print_nat-injective m n e =
    let read_m = scan-print m [] tt in
    let read_n = scan-print n [] tt in ground (arith, read_m, read_n, e)

abbrev pub power10 : ℕ → ℕ
power10 zero = 1
power10 (suc k) = 10 * power10 k

length-digits : (k f n : ℕ) → n < power10 (suc k) → length (digits f n) ≤ suc k
unfolding digits
length-digits k zero n h = omega arith
length-digits zero (suc f) n h =
    let small : ltb n 10 ≡ true = ground arith in rw small (omega arith)
length-digits (suc k) (suc f) n h = elim (Bool-cases (ltb n 10)) [
  | inl small ↦ rw small (omega arith)
  | inr large ↦ rw large (
      omega (
        arith,
        length-append (digits f (n / 10)) ((b'0' + n % 10) ∷ []),
        length-digits k f (n / 10) (omega arith),
      ))
]

-- A number below 10^(k + 1) has at most k + 1 digits.
pub length-print_nat : (k n : ℕ) → n < power10 (suc k) → length (print_nat n) ≤ suc k
unfolding print_nat
length-print_nat k n h = length-digits k (suc n) n h

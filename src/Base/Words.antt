-- ===== src/Base/Words.antt =====
-- Counters of C's fixed widths, with the wrap written out, and the floating point the program uses.
use Prim.Native.Nat.{ℕ, ◌+◌, ◌-◌, ◌%◌, ◌^◌}
use mathlib.Core.Bool.{Bool}
use mathlib.Core.List.{List}

abbrev pub u64_mod : ℕ
u64_mod = 2 ^ 64

abbrev pub u32_mod : ℕ
u32_mod = 2 ^ 32

-- `x++`, `x--` and `x + n` on a `uint64_t` or a `size_t`.
abbrev pub inc64 : ℕ → ℕ
inc64 x = (x + 1) % u64_mod

abbrev pub dec64 : ℕ → ℕ
dec64 x = (x + u64_mod - 1) % u64_mod

abbrev pub add64 : ℕ → ℕ → ℕ
add64 x n = (x + n) % u64_mod

abbrev pub add32 : ℕ → ℕ → ℕ
add32 x n = (x + n) % u32_mod

-- The floating-point operations of the C implementation. A `float` is its 32-bit pattern and a
-- `double` its 64-bit pattern; what the operations compute on the patterns is the machine's.
pub record Fpu : Type 0 where
  pub zero_double : ℕ
  pub one_double : ℕ
  pub widen : ℕ → ℕ
  pub narrow : ℕ → ℕ
  pub double_of_u32 : ℕ → ℕ
  pub double_of_i32 : ℕ → ℕ
  pub u32_of_double : ℕ → ℕ
  pub i32_of_double : ℕ → ℕ
  pub u64_of_double : ℕ → ℕ
  pub i64_of_double : ℕ → ℕ
  pub u8_of_double : ℕ → ℕ
  pub add : ℕ → ℕ → ℕ
  pub sub : ℕ → ℕ → ℕ
  pub fabs : ℕ → ℕ
  pub le : ℕ → ℕ → Bool
  pub ge : ℕ → ℕ → Bool
  pub ne : ℕ → ℕ → Bool
  pub float_le_zero : ℕ → Bool
  -- `%f`.
  pub print_fixed : ℕ → List ℕ

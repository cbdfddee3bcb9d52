-- ===== src/TestLibrary/Floats.antt =====
-- The floating-point numbers and pointers of testLibrary/src/basic_types.c and callout.c. A number is
-- its bit pattern; the arithmetic, which is the compiler's and the machine's, is a parameter.
use threaded_ffi_plugin.Prelude.{ℕ}
use threaded_ffi_plugin.Machine.{Ptr}

-- the floating-point types of `test_functions`
pub data FloatType : Type 0 where
  float double : FloatType

-- The sum of two numbers of a type, and the conversions between the two types.
pub record Arithmetic : Type 0 where
  pub add : FloatType → ℕ → ℕ → ℕ
  pub double_of_float : ℕ → ℕ
  pub float_of_double : ℕ → ℕ

unfoldable pub sizeof_float_type : FloatType → ℕ
sizeof_float_type float = 4
sizeof_float_type double = 8

unfoldable pub id_float_type : FloatType → ℕ → ℕ
id_float_type t a = a

unfoldable pub sum_float_type : Arithmetic → FloatType → ℕ → ℕ → ℕ
sum_float_type arithmetic t a b = arithmetic.add t a b

-- `a + b` is the sum of two `double`s, which is returned as a `float`.
unfoldable pub sum_a_float_and_a_double : Arithmetic → (a b : ℕ) → ℕ
sum_a_float_and_a_double arithmetic a b =
    arithmetic.float_of_double (arithmetic.add double (arithmetic.double_of_float a) b)

unfoldable pub id_pointer : Ptr → Ptr
id_pointer a = a

unfoldable pub sizeof_pointer : ℕ
sizeof_pointer = 8

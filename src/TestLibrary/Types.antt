-- ===== src/TestLibrary/Types.antt =====
-- testLibrary/src/basic_types.c: the functions that its macros give for each type. A value of a type
-- is its bit pattern, a number below 2 to its width; the sizes and the signs are those of GCC and
-- Clang on 64-bit Linux.
use threaded_ffi_plugin.Prelude.{
  ℕ, ◌+◌, ◌-◌, ◌*◌, ◌%◌, ◌^◌, Bool, true, false, ◌&&◌, Option, none, some, if◌then◌else◌, ltb, leb,
}

-- the integer types of `test_functions` and `test_functions_with_name`
pub data CType : Type 0 where
  uintenum sintenum charenum : CType
  char uchar : CType
  short int int8_t int16_t int32_t int64_t long longlong : CType
  ushort uint uint8_t uint16_t uint32_t uint64_t ulong ulonglong : CType
  size_t : CType

unfoldable pub sizeof_type : CType → ℕ
sizeof_type char = 1
sizeof_type uchar = 1
sizeof_type int8_t = 1
sizeof_type uint8_t = 1
sizeof_type short = 2
sizeof_type ushort = 2
sizeof_type int16_t = 2
sizeof_type uint16_t = 2
sizeof_type int64_t = 8
sizeof_type uint64_t = 8
sizeof_type long = 8
sizeof_type ulong = 8
sizeof_type longlong = 8
sizeof_type ulonglong = 8
sizeof_type size_t = 8
sizeof_type _ = 4

unfoldable pub width : CType → ℕ
unfolding sizeof_type
width t = 8 * sizeof_type t

-- An enumeration without a negative constant is an `unsigned int`.
unfoldable pub is_signed : CType → Bool
is_signed sintenum = true
is_signed char = true
is_signed short = true
is_signed int = true
is_signed int8_t = true
is_signed int16_t = true
is_signed int32_t = true
is_signed int64_t = true
is_signed long = true
is_signed longlong = true
is_signed _ = false

-- The sum of two signed integers of width `w` is not one of them.
abbrev pub overflows : (w a b : ℕ) → Bool
overflows w a b =
    if ltb a (2 ^ (w - 1))
    then ltb b (2 ^ (w - 1)) && leb (2 ^ (w - 1)) (a + b)
    else leb (2 ^ (w - 1)) b && ltb (a + b) (3 * 2 ^ (w - 1))

unfoldable pub id_type : CType → ℕ → ℕ
id_type t a = a

-- `a + b`, undefined where a signed integer no narrower than an `int` overflows; narrower ones are
-- added as `int`s and cut down.
unfoldable pub sum_type : CType → ℕ → ℕ → Option ℕ
unfolding width is_signed
sum_type t a b =
    if is_signed t && leb 32 (width t) && overflows (width t) a b
    then none
    else some ((a + b) % 2 ^ width t)

-- ===== src/TestLibrary/Structures.antt =====
-- testLibrary/src/structures.c over the structures of testLibrary/includes/structures.h, and the calls
-- of callbacks of each type in callback_types.c. A member is its bit pattern; how floating-point
-- numbers compare and how large the structures are, are parameters.
use threaded_ffi_plugin.Prelude.{ℕ, Bool, false, ◌&&◌, Option, none, some, List, ◌==◌}
use threaded_ffi_plugin.Machine.{Ptr, Cmd, ◌>>◌, skip}
use threaded_ffi_plugin.Worker.{to_int}
use threaded_ffi_plugin.TestLibrary.Types.{CType}

pub record Point : Type 0 where
  pub x : ℕ
  pub y : ℕ

pub record LongStruct : Type 0 where
  pub a : List ℕ
  pub b : ℕ
  pub c : ℕ
  pub d : ℕ
  pub e : ℕ
  pub f : ℕ

pub record Inner : Type 0 where
  pub a : ℕ
  pub b : Ptr

pub record NestedStructs : Type 0 where
  pub inner : Inner
  pub x : ℕ
  pub y : ℕ

-- `sizeof` of the structures is the compiler's, and a parameter; the result is an `int`.
pub data Structure : Type 0 where
  point long_struct nested_structs : Structure

module _ (sizeof : Structure → ℕ) where
  unfoldable pub size_of_point : ℕ
  size_of_point = to_int (sizeof point)

  unfoldable pub size_of_long_struct : ℕ
  size_of_long_struct = to_int (sizeof long_struct)

  unfoldable pub size_of_nested_struct : ℕ
  size_of_nested_struct = to_int (sizeof nested_structs)

unfoldable pub new_point : ℕ → ℕ → Point
new_point x y = record { x = x; y = y }

unfoldable pub assert_correct_point : Point → ℕ → ℕ → Bool
assert_correct_point a_point x y = (a_point.x == x) && (a_point.y == y)

-- `==` of `float` and of `double`
module _ (float_eq double_eq : ℕ → ℕ → Bool) where
  unfoldable pub passing_long_struct : LongStruct → (b c d : ℕ) → Bool
  passing_long_struct st b c d = float_eq st.b b && double_eq st.c c && (st.d == d)

  -- A pointer is `NULL` or points to a structure.
  unfoldable pub passing_long_struct_by_ref : Option LongStruct → (b c d : ℕ) → Bool
  passing_long_struct_by_ref none b c d = false
  passing_long_struct_by_ref (some st) b c d = float_eq st.b b && double_eq st.c c && (st.d == d)

  unfoldable pub passing_nested_struct : NestedStructs → (a y : ℕ) → Bool
  passing_nested_struct st a y = (st.inner.a == a) && double_eq st.y y

-- The types for which callback_types.c defines `simple_callback_f`, with no enumeration among the
-- integers; for the structures it only repeats the types of callbacks.h.
pub data CallbackType : Type 0 where
  integer : CType → CallbackType
  float double pointer : CallbackType

-- The result of the callback is dropped.
unfoldable pub simple_callback_f :
    {W : Type 0} → CallbackType → (ℕ → Cmd W ℕ) → ℕ → Cmd W (Unit {0})
simple_callback_f t fun value = do fun value; skip

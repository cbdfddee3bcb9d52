-- ===== src/Primitives/Memory.antt =====
-- plugin/src/primitiveUtils.c, and the arrays that the other primitives fill from an array of the
-- image.
pub mod Fill
use threaded_ffi_plugin.Prelude.{
  ℕ, zero, suc, ◌+◌, ◌-◌, ◌%◌, ◌^◌, [], ◌∷◌, ◌++◌, not, if◌then◌else◌,
}
use threaded_ffi_plugin.Machine.{
  Ptr, pointers, as_pointers, Cmd, ◌>>=◌, ◌>>◌, skip, leave, load, store,
}
use threaded_ffi_plugin.Host.{Oop, Vm, ask, call, tell}
use threaded_ffi_plugin.Utils.{
  primitive_fail, check_failed, stack_value, stack_integer_value, stack_object_value,
  get_address_from_external_address_or_byte_array, primitive_end, primitive_end_return,
  primitive_end_return_integer,
}

module _ {W : Type 0} where
  -- `array[i] = x`, where the elements before `i` are written
  unfoldable pub append_pointer : (array x : Ptr) → Cmd W (Unit {0})
  append_pointer array x = do
    written ← load as_pointers array
    store array (pointers (written ++ x ∷ []))

module _ {W : Type 0} ⦃vm : Vm W⦄ where
  -- The loops that read the `count` elements of an array of the image from `idx` on, and store the
  -- address that `read` gives for each.
  unfoldable pub fill_pointers : (Oop → Cmd W Ptr) → ℕ → ℕ → Oop → Ptr → Cmd W (Unit {0})
  unfolding append_pointer
  fill_pointers read zero idx objects array = skip
  fill_pointers read (suc count) idx objects array = do
    o ← call (vm.st_object_at objects (idx + 1))
    x ← read o
    append_pointer array x
    fill_pointers read count (idx + 1) objects array

  unfoldable pub primitive_copy_from_to : Cmd W (Unit {0})
  unfolding check_failed get_address_from_external_address_or_byte_array primitive_end
  primitive_copy_from_to = do
    size ← stack_integer_value 0
    check_failed
    to ← stack_object_value 1
    check_failed
    from ← stack_object_value 2
    check_failed
    from_address ← get_address_from_external_address_or_byte_array from
    check_failed
    to_address ← get_address_from_external_address_or_byte_array to
    check_failed
    tell (vm.copy_memory to_address from_address size)
    primitive_end

  unfoldable pub primitive_get_address_of_oop : Cmd W (Unit {0})
  unfolding check_failed primitive_end_return_integer
  primitive_get_address_of_oop = do
    o ← stack_value 0
    check_failed
    pinned ← ask (vm.is_pinned o)
    if not pinned then (do primitive_fail; leave) else skip
    primitive_end_return_integer (o + vm.base_header_size)

  unfoldable pub primitive_get_object_from_address : Cmd W (Unit {0})
  unfolding check_failed primitive_end_return
  primitive_get_object_from_address = do
    address ← stack_value 0
    value ← ask (vm.integer_value_of address)
    check_failed
    primitive_end_return ((value + (2 ^ 64 - vm.base_header_size)) % 2 ^ 64)

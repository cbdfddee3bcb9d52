-- ===== src/Primitives/Functions.antt =====
-- plugin/src/functionDefinitionPrimitives.c: the description of a foreign function for libffi.
pub mod Definition
use threaded_ffi_plugin.Prelude.{ℕ, ◌==◌, not, if◌then◌else◌}
use threaded_ffi_plugin.Machine.{
  Ptr, null, cif, as_cif, as_pointers, Cmd, pure, ◌>>=◌, ◌>>◌, skip, leave, malloc, load, store,
  free,
}
use threaded_ffi_plugin.Host.{Vm, Ffi, ffi_ok, call, tell}
use threaded_ffi_plugin.Utils.{
  primitive_fail, check_failed, stack_value, read_address, get_handler, set_handler, primitive_end,
}
use threaded_ffi_plugin.Primitives.Memory.{fill_pointers}

module _ {W : Type 0} ⦃vm : Vm W⦄ ⦃ffi : Ffi W⦄ where
  unfoldable pub define_function_with_and : (parameters : Ptr) → ℕ → (return_type : Ptr) → Cmd W Ptr
  define_function_with_and parameters count return_type = do
    description ← malloc
    types ← load as_pointers parameters
    return_code ← call (ffi.prep_cif count return_type types)
    store description (cif parameters)
    if not (return_code == ffi_ok)
        then (do
          tell (vm.primitive_fail_for return_code)
          free description
          free parameters
          pure null)
        else pure description

  unfoldable pub primitive_define_function : Cmd W (Unit {0})
  unfolding check_failed read_address fill_pointers define_function_with_and set_handler
      primitive_end
  primitive_define_function = do
    return_object ← stack_value 0
    return_type ← read_address return_object
    check_failed
    sized ← stack_value 1
    count ← call (vm.st_size_of sized)
    check_failed
    objects ← stack_value 1
    check_failed
    receiver ← stack_value 2
    check_failed
    parameters ← malloc
    fill_pointers read_address count 0 objects parameters
    check_failed
    handler ← define_function_with_and parameters count return_type
    check_failed
    set_handler receiver handler
    check_failed
    primitive_end

module _ {W : Type 0} ⦃vm : Vm W⦄ where
  unfoldable pub primitive_free_definition : Cmd W (Unit {0})
  unfolding check_failed get_handler set_handler
  primitive_free_definition = do
    receiver ← stack_value 0
    check_failed
    handler ← get_handler receiver
    check_failed
    if handler == null then (do primitive_fail; leave) else skip
    types ← load as_cif handler
    free types
    free handler
    set_handler receiver null

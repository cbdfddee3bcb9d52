-- ===== src/Primitives/Parameters.antt =====
-- plugin/src/primitiveCalls.c: the array of arguments for a foreign call.
pub mod Arguments
pub mod Prepare
use threaded_ffi_plugin.Prelude.{ℕ, zero, suc, ◌+◌, ◌==◌, not, if◌then◌else◌}
use threaded_ffi_plugin.Machine.{Ptr, null, Cmd, ◌>>=◌, ◌>>◌, skip, leave, malloc, free}
use threaded_ffi_plugin.Host.{Oop, Vm, ask, call}
use threaded_ffi_plugin.Utils.{
  primitive_fail, check_failed, stack_value, read_address, write_address, primitive_end,
}
use threaded_ffi_plugin.Primitives.Memory.{append_pointer}

module _ {W : Type 0} ⦃vm : Vm W⦄ where
  -- The loop over the arguments: at one that is not pinned the primitive gives the array back,
  -- fails and leaves.
  unfoldable pub prepare_arguments : ℕ → ℕ → Oop → Ptr → Cmd W (Unit {0})
  unfolding append_pointer
  prepare_arguments zero idx arguments parameters = skip
  prepare_arguments (suc count) idx arguments parameters = do
    o ← call (vm.st_object_at arguments (idx + 1))
    pinned ← ask (vm.is_pinned o)
    if not pinned then (do free parameters; primitive_fail; leave) else skip
    append_pointer parameters (o + vm.base_header_size)
    prepare_arguments count (idx + 1) arguments parameters

  unfoldable pub primitive_prepare_parameters_for_call : Cmd W (Unit {0})
  unfolding check_failed write_address prepare_arguments primitive_end
  primitive_prepare_parameters_for_call = do
    return_address ← stack_value 0
    check_failed
    return_holder ← stack_value 1
    check_failed
    parameter_address ← stack_value 2
    check_failed
    arguments ← stack_value 3
    check_failed
    pinned ← ask (vm.is_pinned return_holder)
    if not pinned then (do primitive_fail; leave) else skip
    write_address return_address (return_holder + vm.base_header_size)
    check_failed
    nil ← ask vm.nil_object
    if arguments == nil
        then (do write_address parameter_address null; check_failed; primitive_end; leave)
        else skip
    count ← call (vm.st_size_of arguments)
    check_failed
    parameters ← malloc
    prepare_arguments count 0 arguments parameters
    write_address parameter_address parameters
    bad ← ask vm.failed
    if bad then (do free parameters; primitive_fail; leave) else skip
    primitive_end

  unfoldable pub primitive_release_parameters_for_call : Cmd W (Unit {0})
  unfolding check_failed read_address primitive_end
  primitive_release_parameters_for_call = do
    return_address ← stack_value 0
    check_failed
    parameter_address ← stack_value 1
    check_failed
    parameters ← read_address parameter_address
    check_failed
    if parameters == null then skip else free parameters
    primitive_end

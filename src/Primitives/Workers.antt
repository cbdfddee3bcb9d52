-- ===== src/Primitives/Workers.antt =====
-- plugin/src/worker/workerPrimitives.c, and the two primitives of plugin/src/sameThread.
pub mod Create
pub mod Callout
use threaded_ffi_plugin.Prelude.{ℕ, ◌==◌, if◌then◌else◌}
use threaded_ffi_plugin.Machine.{Ptr, null, Cmd, ◌>>=◌, ◌>>◌, skip, leave}
use threaded_ffi_plugin.Host.{Vm, Ffi, ask, call, tell}
use threaded_ffi_plugin.Utils.{
  pointer_size, check_failed, stack_value, stack_integer_value, get_receiver, get_handler,
  set_handler, read_address, write_address, primitive_end, primitive_end_return,
}
use threaded_ffi_plugin.Worker.{
  worker_new, worker_release, worker_task_new, worker_dispatch_callout,
}

module _ {W : Type 0} ⦃vm : Vm W⦄ where
  -- Where no worker can be made, the code asks whether the primitive has failed and leaves.
  unfoldable pub primitive_create_worker : Cmd W (Unit {0})
  unfolding check_failed get_receiver worker_new set_handler primitive_end
  primitive_create_worker = do
    receiver ← get_receiver
    check_failed
    w ← worker_new
    if w == null then (do ask vm.failed; leave) else skip
    set_handler receiver w
    check_failed
    primitive_end

  unfoldable pub primitive_release_worker : ℕ → Cmd W (Unit {0})
  unfolding check_failed get_receiver get_handler worker_release set_handler primitive_end
  primitive_release_worker fuel = do
    receiver ← get_receiver
    check_failed
    w ← get_handler receiver
    check_failed
    worker_release fuel w
    set_handler receiver null
    check_failed
    primitive_end

  unfoldable pub primitive_perform_worker_call : Cmd W (Unit {0})
  unfolding check_failed read_address get_handler get_receiver worker_task_new
      worker_dispatch_callout primitive_end
  primitive_perform_worker_call = do
    index ← stack_integer_value 0
    check_failed
    holder ← stack_value 1
    return_holder ← read_address holder
    check_failed
    arguments ← stack_value 2
    parameters ← read_address arguments
    check_failed
    function ← stack_value 3
    external_function ← get_handler function
    check_failed
    again ← stack_value 3
    definition ← call (vm.fetch_pointer_of_object 1 again)
    cif ← get_handler definition
    check_failed
    receiver ← get_receiver
    check_failed
    w ← get_handler receiver
    check_failed
    t ← worker_task_new external_function cif parameters return_holder index
    check_failed
    worker_dispatch_callout w t
    check_failed
    primitive_end

  -- `r` is the address of `sameThreadRunner`.
  unfoldable pub primitive_get_same_thread_runner_address : (r : Ptr) → Cmd W (Unit {0})
  unfolding check_failed write_address primitive_end_return
  primitive_get_same_thread_runner_address r = do
    class ← ask vm.class_external_address
    external ← call (vm.instantiate_class_indexable_size class pointer_size)
    check_failed
    write_address external r
    check_failed
    primitive_end_return external

module _ {W : Type 0} ⦃vm : Vm W⦄ ⦃ffi : Ffi W⦄ where
  -- The call itself; the foreign function makes no callback.
  unfoldable pub same_thread_call :
      (cif external_function return_holder parameters : Ptr) → ℕ → Cmd W (Unit {0})
  same_thread_call cif external_function return_holder parameters index = do
    tell (ffi.call cif external_function return_holder parameters)
    tell (vm.signal_semaphore_with_index index)

  unfoldable pub primitive_same_thread_callout : Cmd W (Unit {0})
  unfolding check_failed read_address get_handler get_receiver same_thread_call primitive_end
  primitive_same_thread_callout = do
    holder ← stack_value 1
    return_holder ← read_address holder
    check_failed
    arguments ← stack_value 2
    parameters ← read_address arguments
    check_failed
    function ← stack_value 3
    external_function ← get_handler function
    check_failed
    again ← stack_value 3
    definition ← call (vm.fetch_pointer_of_object 1 again)
    cif ← get_handler definition
    check_failed
    once_more ← stack_value 3
    definition_again ← call (vm.fetch_pointer_of_object 1 once_more)
    cif_again ← get_handler definition_again
    check_failed
    index ← stack_integer_value 0
    check_failed
    receiver ← get_receiver
    check_failed
    same_thread_call cif_again external_function return_holder parameters index
    check_failed
    primitive_end

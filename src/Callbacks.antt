-- ===== src/Callbacks.antt =====
-- plugin/src/callbacks/callbacks.c and plugin/src/sameThread: callbacks, their invocations, the
-- stack of invocations of each runner, and the queue of invocations that wait for the image.
pub mod Creation
pub mod Release
pub mod Stack
pub mod Extends
pub mod Apart
pub mod Invocation
pub mod Frontend
pub mod OnWorker
pub mod Answered
pub mod Read
pub mod Reentry
pub mod Session
pub mod Abandoned
use threaded_ffi_plugin.Prelude.{ℕ, ◌+◌, true, false, none, some, length, ◌==◌, not, if◌then◌else◌}
use threaded_ffi_plugin.Machine.{
  Ptr, null, Block, Runner, RunnerFunction, worker_enter, worker_return, worker_prepare,
  same_thread_enter, same_thread_exit, same_thread_prepare, Worker, Callback, CallbackInvocation,
  runner, worker, callback, invocation, callback_context, as_callback, as_invocation, as_runner,
  as_runner_block, as_pointers, State, Cmd, ok, fault, pure, ◌>>=◌, ◌>>◌, skip, leave, defined,
  malloc, local, load, store, free,
}
use threaded_ffi_plugin.Host.{Vm, Ffi, ffi_ok, ask, call, tell}
use threaded_ffi_plugin.Semaphores.{pharo_semaphore_new}
use threaded_ffi_plugin.Queue.{threadsafe_queue_new, threadsafe_queue_put, threadsafe_queue_take}
use threaded_ffi_plugin.Utils.{primitive_end_return}
use threaded_ffi_plugin.Worker.{
  of_int, set_payload, worker_callback_prepare, worker_callback_return, worker_enter_callback,
}

-- `r->callbackStack = i` in the block at `r`
abbrev pub with_stack : Ptr → Block → Block
with_stack i (runner r) = runner (record r { callback_stack = i })
with_stack i (worker w) = worker (record w { runner = record (w.runner) { callback_stack = i } })
with_stack i b = b

module _ {W : Type 0} where
  -- A `Runner*` may be the address of a worker or of the static runner.
  unfoldable pub get_callback_stack : Ptr → Cmd W Ptr
  get_callback_stack r = do this ← load as_runner r; pure this.callback_stack

  unfoldable pub set_callback_stack : Ptr → Ptr → Cmd W (Unit {0})
  set_callback_stack r i = do b ← load as_runner_block r; store r (with_stack i b)

  unfoldable pub initilize_callbacks : ℕ → Cmd W (Unit {0})
  initilize_callbacks index = do
    semaphore ← pharo_semaphore_new (of_int index)
    q ← threadsafe_queue_new semaphore
    λ s. ok tt (record s { callback_queue = q })

  unfoldable pub queue_next_pending_callback : Cmd W Ptr
  queue_next_pending_callback s =
      if s.callback_queue == null then ok null s else threadsafe_queue_take s.callback_queue s

  -- plugin/src/sameThread: up to the call of `ptEnterInterpreterFromCallback`, which runs the image.
  unfoldable pub same_thread_callback_enter : Ptr → Cmd W Ptr
  same_thread_callback_enter i = do
    context ← malloc
    set_payload i context
    store context callback_context
    pure context

  -- `sigsetjmp` answers for the second time: the image has left through
  -- `ptExitInterpreterToCallback`.
  unfoldable pub same_thread_callback_resume : Ptr → Cmd W (Unit {0})
  same_thread_callback_resume context = free context

  -- What is left of `callbackFrontend` then; its local invocation goes out of scope.
  unfoldable pub callback_frontend_resume : (i context : Ptr) → Cmd W (Unit {0})
  unfolding same_thread_callback_resume
  callback_frontend_resume i context = do same_thread_callback_resume context; free i

  -- The interpreter comes back from `ptEnterInterpreterFromCallback` instead: a warning is printed.
  unfoldable pub same_thread_callback_abandon : Ptr → Cmd W (Unit {0})
  same_thread_callback_abandon context = skip

  -- What is left of `callbackFrontend` then.
  unfoldable pub callback_frontend_abandon : (i context : Ptr) → Cmd W (Unit {0})
  unfolding same_thread_callback_abandon
  callback_frontend_abandon i context = do same_thread_callback_abandon context; free i

  unfoldable pub same_thread_prepare_callback : Ptr → Ptr → Cmd W (Unit {0})
  same_thread_prepare_callback r i = skip

module _ {W : Type 0} ⦃vm : Vm W⦄ where
  unfoldable pub queue_add_pending_callback : Ptr → Cmd W (Unit {0})
  queue_add_pending_callback i s = threadsafe_queue_put s.callback_queue i s

  unfoldable pub same_thread_callback_exit : Ptr → Ptr → Cmd W (Unit {0})
  same_thread_callback_exit r i = do
    this ← load as_invocation i
    context ← defined this.payload
    tell (vm.exit_interpreter_to_callback context)

  unfoldable pub call_prepare : RunnerFunction → Ptr → Ptr → Cmd W (Unit {0})
  unfolding worker_callback_prepare same_thread_prepare_callback
  call_prepare worker_prepare r i = worker_callback_prepare r i
  call_prepare same_thread_prepare r i = same_thread_prepare_callback r i
  call_prepare _ r i = λ _. fault

  unfoldable pub call_exit : RunnerFunction → Ptr → Ptr → Cmd W (Unit {0})
  unfolding worker_callback_return same_thread_callback_exit
  call_exit worker_return r i = worker_callback_return r i
  call_exit same_thread_exit r i = same_thread_callback_exit r i
  call_exit _ r i = λ _. fault

  -- `callbackFrontend` up to the call of `callbackEnterFunction`: the invocation is pushed on the
  -- runner's stack, prepared, and handed to the image.
  unfoldable pub callback_frontend : (cb ret args : Ptr) → Cmd W Ptr
  unfolding get_callback_stack set_callback_stack call_prepare queue_add_pending_callback
  callback_frontend cb ret args = do
    this ← load as_callback cb
    r ← defined this.runner
    previous ← get_callback_stack r
    i ← local (
        invocation (record {
          callback = cb;
          return_holder = ret;
          arguments = args;
          payload = none;
          previous = previous;
        }))
    set_callback_stack r i
    functions ← load as_runner r
    call_prepare functions.callback_prepare_invocation r i
    queue_add_pending_callback i
    pure i

  -- `callbackFrontend` for the same-thread runner, up to the point where the image runs. It gives
  -- the invocation and the context that waits for the image to leave.
  unfoldable pub callback_frontend_on_same_thread : (cb ret args : Ptr) → Cmd W (Ptr × Ptr)
  unfolding callback_frontend same_thread_callback_enter
  callback_frontend_on_same_thread cb ret args = do
    i ← callback_frontend cb ret args
    this ← load as_callback cb
    r ← defined this.runner
    functions ← load as_runner r
    elim functions.callback_enter_function [
      | same_thread_enter ↦ do
        context ← same_thread_callback_enter i
        tell (vm.enter_interpreter_from_callback context)
        pure (i, context)
      | _ ↦ λ _. fault
    ]

module _ {W : Type 0} ⦃vm : Vm W⦄ ⦃ffi : Ffi W⦄ where
  -- The enter function of the same-thread runner does not come back to its caller by itself: it is
  -- `same_thread_callback_enter` and, later, `same_thread_callback_resume`.
  unfoldable pub call_enter : ℕ → RunnerFunction → Ptr → Ptr → Cmd W (Unit {0})
  unfolding worker_enter_callback
  call_enter fuel worker_enter r i = worker_enter_callback fuel r i
  call_enter fuel _ r i = λ _. fault

  -- The rest of `callbackFrontend` for a worker; it comes back when the callback has returned.
  unfoldable pub callback_frontend_wait : ℕ → (cb i : Ptr) → Cmd W (Unit {0})
  unfolding call_enter
  callback_frontend_wait fuel cb i = do
    this ← load as_callback cb
    r ← defined this.runner
    functions ← load as_runner r
    call_enter fuel functions.callback_enter_function r i
    free i

  unfoldable pub callback_frontend_on_worker : ℕ → (cb ret args : Ptr) → Cmd W (Unit {0})
  unfolding callback_frontend callback_frontend_wait
  callback_frontend_on_worker fuel cb ret args = do
    i ← callback_frontend cb ret args
    callback_frontend_wait fuel cb i

  -- The three failures of libffi are reported and give everything back, the array of parameter
  -- types included.
  unfoldable pub callback_new : (r parameters : Ptr) → ℕ → Ptr → Cmd W Ptr
  callback_new r parameters count return_type = do
    cb ← malloc
    (closure, address) ← call ffi.closure_alloc
    store cb (
        callback (record {
          runner = some r;
          user_data = none;
          closure = some closure;
          prepared = false;
          function_address = some address;
          parameter_types = some parameters;
        }))
    if closure == null
        then (do tell (vm.primitive_fail_for 1); free cb; free parameters; pure null)
        else (do
          types ← load as_pointers parameters
          status ← call (ffi.prep_cif count return_type types)
          if not (status == ffi_ok)
              then (do
                tell (vm.primitive_fail_for 1)
                tell (ffi.closure_free closure)
                free cb
                free parameters
                pure null)
              else (do
                this ← load as_callback cb
                store cb (callback (record this { prepared = true }))
                ready ← call (ffi.prep_closure_loc closure address cb)
                if not (ready == ffi_ok)
                    then (do
                      tell (vm.primitive_fail_for 1)
                      tell (ffi.closure_free closure)
                      free cb
                      free parameters
                      pure null)
                    else pure cb))

  unfoldable pub callback_release : Ptr → Cmd W (Unit {0})
  callback_release cb = do
    this ← load as_callback cb
    closure ← defined this.closure
    tell (ffi.closure_free closure)
    types ← defined this.parameter_types
    free types
    data_of ← defined this.user_data
    if data_of == null then skip else free data_of
    free cb

module _ {W : Type 0} ⦃vm : Vm W⦄ where
  -- The end of `primitiveCallbackReturn`, once it has the runner and the invocation.
  unfoldable pub return_invocation : (r i : Ptr) → Cmd W (Unit {0})
  unfolding get_callback_stack set_callback_stack call_exit
  return_invocation r i = do
    top ← get_callback_stack r
    if not (i == top) then (do o ← ask vm.false_object; primitive_end_return o; leave) else (do
      o ← ask vm.true_object
      primitive_end_return o
      this ← load as_invocation top
      set_callback_stack r this.previous
      functions ← load as_runner r
      call_exit functions.callback_exit_function r i)

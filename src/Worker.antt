-- ===== src/Worker.antt =====
-- plugin/src/worker/worker.c and workerTask.c: a worker is a runner with a queue of tasks, which a
-- thread of its own (or the main thread) serves one by one.
pub mod Beside
pub mod Tasks
pub mod Serve
pub mod Round
pub mod Run
pub mod Frames
pub mod Handed
pub mod Dispatch
pub mod Calls
pub mod Requests
pub mod Return
pub mod Answer
pub mod Prepare
pub mod Await
pub mod Reentry
pub mod Waking
pub mod Crossing
pub mod Creation
pub mod Lifetime
pub mod Unqueued
use threaded_ffi_plugin.Prelude.{
  ℕ, zero, suc, ◌+◌, ◌-◌, ◌%◌, ◌^◌, Bool, true, false, none, some, ◌∷◌, ◌==◌, ltb, if◌then◌else◌,
}
use threaded_ffi_plugin.Machine.{
  Ptr, null, WorkerTask, WorkerTaskType, callout, callback_return, Runner, RunnerFunction,
  worker_enter, worker_return, worker_prepare, Worker, CallbackInvocation, task, worker, invocation,
  as_task, as_worker, as_invocation, State, Cmd, ok, out_of_fuel, pure, ◌>>=◌, ◌>>◌, skip, defined,
  malloc, load, store, free,
}
use threaded_ffi_plugin.Host.{Vm, Ffi, tell}
use threaded_ffi_plugin.Semaphores.{wait, release, signal, platform_semaphore_new}
use threaded_ffi_plugin.Queue.{
  threadsafe_queue_new, threadsafe_queue_put, threadsafe_queue_take, threadsafe_queue_free,
}

-- A `sqInt` stored in an `int`, and an `int` passed as a `sqInt`, as bit patterns.
abbrev pub to_int : ℕ → ℕ
to_int x = x % 2 ^ 32

abbrev pub of_int : ℕ → ℕ
of_int x = if ltb x (2 ^ 31) then x else x + (2 ^ 64 - 2 ^ 32)

module _ {W : Type 0} where
  unfoldable pub worker_task_new :
      (external_function cif parameters return_holder : Ptr) → ℕ → Cmd W Ptr
  worker_task_new external_function cif parameters return_holder semaphore_index = do
    t ← malloc
    store t (
        task (record {
          kind = callout;
          an_external_function = some external_function;
          cif = some cif;
          parameters_address = some parameters;
          return_holder_address = some return_holder;
          semaphore_index = some (to_int semaphore_index);
          queue_handle = some null;
          callback_semaphore = none;
        }))
    pure t

  unfoldable pub worker_task_new_callback : Ptr → Cmd W Ptr
  worker_task_new_callback i = do
    t ← malloc
    this ← load as_invocation i
    store t (
        task (record {
          kind = callback_return;
          an_external_function = none;
          cif = none;
          parameters_address = none;
          return_holder_address = none;
          semaphore_index = none;
          queue_handle = none;
          callback_semaphore = this.payload;
        }))
    pure t

  unfoldable pub worker_task_release : Ptr → Cmd W (Unit {0})
  worker_task_release t = free t

  unfoldable pub worker_next_call : Ptr → Cmd W Ptr
  worker_next_call w = do this ← load as_worker w; threadsafe_queue_take this.task_queue

  -- `pthread_self()` names the current thread.
  unfoldable pub set_self_thread : Ptr → Cmd W (Unit {0})
  set_self_thread w s =
      (do this ← load as_worker w; store w (worker (record this { self_thread = s.thread }))) s

  unfoldable pub set_payload : Ptr → Ptr → Cmd W (Unit {0})
  set_payload i payload = do
    this ← load as_invocation i
    store i (invocation (record this { payload = some payload }))

  -- Whether the callback comes from the worker's own thread decides what its return signals.
  unfoldable pub worker_callback_prepare : Ptr → Ptr → Cmd W (Unit {0})
  unfolding set_payload
  worker_callback_prepare w i = do
    this ← load as_worker w
    λ s.
        (if this.self_thread == s.thread
            then set_payload i null
            else (do semaphore ← platform_semaphore_new 0; set_payload i semaphore))
          s

  -- `pthread_create` starts a thread that runs `worker_run` on the worker, or fails; then `NULL` is
  -- answered and nothing is given back. `worker->threadId` is not modelled further.
  unfoldable pub start_thread : Ptr → Cmd W Bool
  start_thread w s =
      if s.thread_budget == 0
      then ok false s
      else ok true (record s { thread_budget = s.thread_budget - 1; started = w ∷ s.started })

  unfoldable pub worker_new_spawning : Bool → Cmd W Ptr
  unfolding start_thread
  worker_new_spawning spawn = do
    w ← malloc
    semaphore ← platform_semaphore_new 0
    task_queue ← threadsafe_queue_new semaphore
    store w (
        worker (record {
          runner = record {
            callback_enter_function = worker_enter;
            callback_exit_function = worker_return;
            callback_prepare_invocation = worker_prepare;
            callback_stack = null;
          };
          thread_id = 0;
          task_queue = task_queue;
          self_thread = null;
          next = null;
        }))
    created ← if spawn then start_thread w else pure true
    pure (if created then w else null)

  unfoldable pub worker_new : Cmd W Ptr
  unfolding worker_new_spawning
  worker_new = worker_new_spawning true

  unfoldable pub worker_release : ℕ → Ptr → Cmd W (Unit {0})
  worker_release fuel w = do
    this ← load as_worker w
    threadsafe_queue_free fuel this.task_queue
    free w

module _ {W : Type 0} ⦃vm : Vm W⦄ where
  unfoldable pub worker_add_call : Ptr → Ptr → Cmd W (Unit {0})
  worker_add_call w t = do this ← load as_worker w; threadsafe_queue_put this.task_queue t

  unfoldable pub worker_dispatch_callout : Ptr → Ptr → Cmd W (Unit {0})
  unfolding worker_add_call
  worker_dispatch_callout w t = worker_add_call w t

  unfoldable pub worker_callback_return : Ptr → Ptr → Cmd W (Unit {0})
  unfolding worker_task_new_callback worker_add_call
  worker_callback_return w i = do t ← worker_task_new_callback i; worker_add_call w t

module _ {W : Type 0} ⦃vm : Vm W⦄ ⦃ffi : Ffi W⦄ where
  unfoldable pub execute_worker_task : Ptr → Cmd W (Unit {0})
  unfolding worker_task_release
  execute_worker_task t = do
    this ← load as_task t
    cif ← defined this.cif
    function ← defined this.an_external_function
    return_holder ← defined this.return_holder_address
    parameters ← defined this.parameters_address
    tell (ffi.call cif function return_holder parameters)
    index ← defined this.semaphore_index
    tell (vm.signal_semaphore_with_index (of_int index))
    worker_task_release t

  -- One round of the loop of `worker_run`: it says whether the loop ends.
  unfoldable pub serve : Ptr → Cmd W Bool
  unfolding worker_next_call execute_worker_task
  serve w = do
    t ← worker_next_call w
    if t == null then pure false else (do
      this ← load as_task t
      elim this.kind [
        | callout ↦ do execute_worker_task t; pure false
        | callback_return ↦ do
          semaphore ← defined this.callback_semaphore
          if semaphore == null then pure true else (do signal semaphore; pure false)
      ])

  unfoldable pub worker_loop : ℕ → Ptr → Cmd W (Unit {0})
  worker_loop zero w = λ _. out_of_fuel
  worker_loop (suc fuel) w = do
    done ← serve w
    elim done [ true ↦ skip | false ↦ worker_loop fuel w ]

  unfoldable pub worker_run : ℕ → Ptr → Cmd W (Unit {0})
  unfolding set_self_thread worker_loop
  worker_run fuel w = do set_self_thread w; worker_loop fuel w

  unfoldable pub worker_enter_callback : ℕ → Ptr → Ptr → Cmd W (Unit {0})
  unfolding worker_run
  worker_enter_callback fuel w i = do
    this ← load as_invocation i
    payload ← defined this.payload
    if payload == null then worker_run fuel w else (do wait payload; release payload)

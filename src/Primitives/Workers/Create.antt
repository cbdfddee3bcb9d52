-- ===== src/Primitives/Workers/Create.antt =====
-- `primitiveCreateWorker` where no thread can be started.
use threaded_ffi_plugin.Prelude.{
  ◌+◌, ◌≤◌, ◌<◌, ◌≡◌, ◌≢◌, refl, false, none, some, arith, Bool-cases, inl, inr, ◌==◌, ◌-◌,
}
use threaded_ffi_plugin.Machine.{
  Ptr, Block, null, sem, semaphore, queue, worker, raw, platform_wait, platform_signal,
  platform_free, worker_enter, worker_return, worker_prepare, State, stop, write,
}
use threaded_ffi_plugin.Machine.Access.{allocated, malloc-ok, store-ok}
use threaded_ffi_plugin.Host.{Vm}
use threaded_ffi_plugin.Utils.{get_receiver, check_failed}
use threaded_ffi_plugin.Semaphores.{platform_semaphore_new, semaphore_new}
use threaded_ffi_plugin.Queue.{threadsafe_queue_new, mutex_init}
use threaded_ffi_plugin.Worker.{worker_new, worker_new_spawning, start_thread}
use threaded_ffi_plugin.Primitives.Workers.{primitive_create_worker}

module _ {W : Type 0} ⦃vm : Vm W⦄ (s : State W) where
  -- the world once the receiver has been read
  abbrev asked : W
  asked = (vm.stack_value (vm.method_argument_count s.world) s.world).1

  -- the queue of the new worker, and the worker
  abbrev tasks : Block
  tasks = queue (record { first = null; last = null; mutex = false; semaphore = (s.heap).next + 1 })

  abbrev made : Ptr → Block
  made task_queue = worker (record {
    runner = record {
      callback_enter_function = worker_enter;
      callback_exit_function = worker_return;
      callback_prepare_invocation = worker_prepare;
      callback_stack = null;
    };
    thread_id = 0;
    task_queue = task_queue;
    self_thread = null;
    next = null;
  })

  -- Where the receiver is found and `pthread_create` fails, the primitive returns early in a world in
  -- which it has not failed and has answered nothing, and keeps the worker that it allocated.
  pub create_worker-unstarted :
      0 < (s.heap).next
      → 4 ≤ (s.heap).budget
      → s.thread_budget ≡ 0
      → vm.failed asked ≡ false
      → (t : State W) × (primitive_create_worker s ≡ stop t)
        × (t.world ≡ asked)
        × (vm.failed t.world ≡ false)
        × ((t.heap).block (s.heap).next ≢ none)
  unfolding primitive_create_worker get_receiver check_failed worker_new worker_new_spawning
      start_thread platform_semaphore_new semaphore_new threadsafe_queue_new mutex_init
  create_worker-unstarted pos room full good =
      let n = (s.heap).next in
      let a0 : State W = record s { world = asked } in
      let a1 : State W = allocated a0 (some raw) in
      let a2 : State W = allocated a1 (some raw) in
      let a3 : State W = allocated a2 (some raw) in
      let counter = sem 0 in
      let wrapper = semaphore (record {
        handle = n + 1 + 1;
        wait = platform_wait;
        signal = platform_signal;
        free = platform_free;
      }) in
      let a4 : State W = write a3 (n + 1 + 1) (some counter) in
      let a5 : State W = write a4 (n + 1) (some wrapper) in
      let a6 : State W = record a5 { mutex_budget = s.mutex_budget - 1 } in
      let m0 = malloc-ok a0 (omega (arith, room)) in
      let m1 = malloc-ok a1 (omega (arith, room)) in
      let m2 = malloc-ok a2 (omega (arith, room)) in
      let m3 = store-ok a3 (n + 1 + 1) raw (omega arith) (ground arith) counter in
      let m4 = store-ok a4 (n + 1) raw (omega arith) (ground arith) wrapper in
      elim (Bool-cases (s.mutex_budget == 0)) [
        | inl no_mutex ↦
            let at_n : ((write a6 n (some (made null))).heap).block n ≡ some (made null) =
              ground arith in
            (
              write a6 n (some (made null)),
              rw
                  (
                    good,
                    m0,
                    m1,
                    m2,
                    m3,
                    m4,
                    no_mutex,
                    store-ok a6 n raw (omega (arith, pos)) (ground arith) (made null),
                    full,
                  )
                  refl,
              refl,
              good,
              λ j. cc (at_n, j),
            )
        | inr mutex ↦
            let a7 : State W = allocated a6 (some raw) in
            let a8 : State W = write a7 (n + 1 + 1 + 1) (some tasks) in
            let w = made (n + 1 + 1 + 1) in
            let at_n : ((write a8 n (some w)).heap).block n ≡ some w = ground arith in
            (
              write a8 n (some w),
              rw
                  (
                    good,
                    m0,
                    m1,
                    m2,
                    m3,
                    m4,
                    mutex,
                    malloc-ok a6 (omega (arith, room)),
                    store-ok a7 (n + 1 + 1 + 1) raw (omega arith) (ground arith) tasks,
                    store-ok a8 n raw (omega (arith, pos)) (ground arith) w,
                    full,
                  )
                  refl,
              refl,
              good,
              λ j. cc (at_n, j),
            )
      ]

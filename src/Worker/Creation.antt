-- ===== src/Worker/Creation.antt =====
-- What `worker_newSpawning` makes.
use threaded_ffi_plugin.Prelude.{
  ◌+◌, ◌-◌, ◌≤◌, ◌<◌, ◌≡◌, ◌≢◌, ◌⊎◌, refl, Bool, true, false, Bool-cases, inl, inr, some, [], ◌∷◌,
  ◌==◌, if◌then◌else◌, arith,
}
use threaded_ffi_plugin.Machine.{
  Ptr, null, Block, Worker, worker, raw, sem, semaphore, queue, platform_wait, platform_signal,
  platform_free, worker_enter, worker_return, worker_prepare, State, ok, write,
}
use threaded_ffi_plugin.Machine.Access.{allocated, malloc-ok, store-ok}
use threaded_ffi_plugin.Semaphores.{platform_semaphore_new, semaphore_new}
use threaded_ffi_plugin.Queue.{threadsafe_queue_new, mutex_init}
use threaded_ffi_plugin.Queue.Cells.{IsHeap}
use threaded_ffi_plugin.Worker.{worker_new_spawning, start_thread}
use threaded_ffi_plugin.Worker.Tasks.{IsReady}
use threaded_ffi_plugin.Worker.Frames.{IsReady-Stays}

module _ {W : Type 0} (spawn : Bool) (s : State W) (heap : IsHeap s.heap) where
  abbrev pub n : Ptr
  n = (s.heap).next

  abbrev pub platform_block : Block
  platform_block = semaphore (record {
    handle = n + 1 + 1;
    wait = platform_wait;
    signal = platform_signal;
    free = platform_free;
  })

  abbrev queue_structure : Block
  queue_structure = queue (record { first = null; last = null; mutex = false; semaphore = n + 1 })

  abbrev pub made : Worker
  made = record {
    runner = record {
      callback_enter_function = worker_enter;
      callback_exit_function = worker_return;
      callback_prepare_invocation = worker_prepare;
      callback_stack = null;
    };
    thread_id = 0;
    task_queue = n + 1 + 1 + 1;
    self_thread = null;
    next = null;
  }

  abbrev pub a1 : State W
  a1 = allocated s (some raw)

  abbrev pub a3 : State W
  a3 = allocated (allocated a1 (some raw)) (some raw)

  abbrev a5 : State W
  a5 = write (write a3 (n + 1 + 1) (some (sem 0))) (n + 1) (some platform_block)

  -- the mutex of the queue has been made
  abbrev pub a6 : State W
  a6 = record a5 { mutex_budget = s.mutex_budget - 1 }

  abbrev a7 : State W
  a7 = write (allocated a6 (some raw)) (n + 1 + 1 + 1) (some queue_structure)

  abbrev a8 : State W
  a8 = write a7 n (some (worker made))

  -- the state with the new worker, and with the thread that runs it if one is wanted
  abbrev pub created : State W
  created =
      if spawn
      then record a8 { thread_budget = s.thread_budget - 1; started = n ∷ s.started }
      else a8

  created-IsReady : IsReady a8 n (n + 3) (n + 1) (n + 2) [] []
  created-IsReady = record {
    ne_null = omega (arith, heap.next_pos);
    this = made;
    shape = ground arith;
    task_queue = omega arith;
    channel = record {
      is_queue = record { ne_null = omega arith; shape = ground arith; linked = tt };
      is_platform = record {
        ne_null = omega arith;
        handle_ne_null = omega arith;
        shape = ground arith;
        counts = ground arith;
      };
      is_heap = record {
        next_pos = omega arith;
        fresh = λ p le. ground (arith, heap.fresh p (omega arith));
        at_null = ground (arith, heap.at_null, heap.next_pos);
      };
    };
    tasks = tt;
  }

  -- A thread that was started changes nothing about the worker.
  started-IsReady :
      (b : Bool)
      → IsReady
          (if b
            then record a8 { thread_budget = s.thread_budget - 1; started = n ∷ s.started }
            else a8)
          n
          (n + 3)
          (n + 1)
          (n + 2)
          []
          []
  started-IsReady true =
      IsReady-Stays a8 (record a8 { thread_budget = s.thread_budget - 1; started = n ∷ s.started })
        (λ p x i e. e) n (n + 3) (n + 1) (n + 2) [] [] created-IsReady.channel.is_heap
        created-IsReady
  started-IsReady false = created-IsReady

  -- Where `malloc` grants four requests, `pthread_mutex_init` makes the mutex of the queue, and
  -- `pthread_create` starts a thread if one is wanted, a new worker is ready: its queue is empty, and its semaphore counts nothing. The blocks that there
  -- were are as they were, and the thread that is wanted runs this worker.
  pub worker_new_spawning-IsReady :
      4 ≤ (s.heap).budget
      → s.mutex_budget ≢ 0
      → (spawn ≡ false) ⊎ (s.thread_budget ≢ 0)
      → (worker_new_spawning spawn s ≡ ok n created)
        × IsReady created n (n + 3) (n + 1) (n + 2) [] []
        × (created.world ≡ s.world)
        × (created.started ≡ (if spawn then n ∷ s.started else s.started))
        × ((p : Ptr) → p < n → (created.heap).block p ≡ (s.heap).block p)
  unfolding worker_new_spawning start_thread platform_semaphore_new semaphore_new
      threadsafe_queue_new mutex_init
  worker_new_spawning-IsReady room mutexes threads =
      let some_mutex : (s.mutex_budget == 0) ≡ false = ground (arith, mutexes) in
      (
        rw
            (
              malloc-ok s (omega (arith, room)),
              malloc-ok a1 (omega (arith, room)),
              malloc-ok (allocated a1 (some raw)) (omega (arith, room)),
              store-ok a3 (n + 1 + 1) raw (omega arith) (ground arith) (sem 0),
              store-ok (write a3 (n + 1 + 1) (some (sem 0))) (n + 1) raw (omega arith)
                  (ground arith) platform_block,
              some_mutex,
              malloc-ok a6 (omega (arith, room)),
              store-ok (allocated a6 (some raw)) (n + 1 + 1 + 1) raw (omega arith) (ground arith)
                  queue_structure,
              store-ok a7 n raw (omega (arith, heap.next_pos)) (ground arith) (worker made),
            )
            (elim (Bool-cases spawn) [
              | inr none_wanted ↦ rw none_wanted refl
              | inl wanted ↦
                  let some_left : (s.thread_budget == 0) ≡ false =
                    ground (arith, threads, wanted) in
                  rw (wanted, some_left) refl
            ]),
        started-IsReady spawn,
        ground arith,
        ground arith,
        λ p lt. ground arith,
      )

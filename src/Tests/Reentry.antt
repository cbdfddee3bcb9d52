-- ===== src/Tests/Reentry.antt =====
-- A worker at concrete inputs: its callbacks, its creation and its release.
use threaded_ffi_plugin.Prelude.{
  true, inr, ◌<◌, ◌||◌, ◌≡◌, refl, some, none, [], ◌∷◌, ◌==◌, if◌then◌else◌, arith,
}
use threaded_ffi_plugin.Machine.{
  Ptr, fault, ok, blocked, WorkerTask, ◌>>=◌, ◌>>◌, State, Worker, CallbackInvocation, sem,
  semaphore, task, worker, invocation, platform_wait, platform_signal, platform_free, worker_enter,
  worker_return, worker_prepare,
}
use threaded_ffi_plugin.Semaphores.Wait.{settled}
use threaded_ffi_plugin.Queue.Cells.{Cells, has, IsHeap, queue_block, node_block, Blocks}
use threaded_ffi_plugin.Worker.Creation.{created, platform_block, worker_new_spawning-IsReady}
use threaded_ffi_plugin.Worker.Lifetime.{worker_release_lem, worker_release-worker_new_spawning}
use threaded_ffi_plugin.Worker.Unqueued.{unqueued, worker_release-unqueued}
use threaded_ffi_plugin.Worker.{
  worker_new_spawning, worker_release, worker_callback_prepare, worker_enter_callback, worker_run,
}
use threaded_ffi_plugin.Worker.Tasks.{Request, call, task_of, IsReady, effects}
use threaded_ffi_plugin.Worker.Calls.{Call}
use threaded_ffi_plugin.Worker.Answer.{on_thread, answer}
use threaded_ffi_plugin.Worker.Crossing.{callback_crosses}
use threaded_ffi_plugin.Tests.SmallVm.{World, vm, ffi, world, state_with}

-- a worker at 3 of the thread 8 with its queue at 4 (semaphore at 1 and 2) over the task at 20, and an
-- invocation at 30
abbrev pub cells : Cells
cells = (10, 20) ∷ []

abbrev pub queued : Request
queued = call 40 41 42 43 5

abbrev pub handed_over : Call
handed_over = record { function = 50; cif = 51; parameters = 52; return_holder = 53; index = 6 }

abbrev pub this : Worker
this = record {
  runner = record {
    callback_enter_function = worker_enter;
    callback_exit_function = worker_return;
    callback_prepare_invocation = worker_prepare;
    callback_stack = 0;
  };
  thread_id = 0;
  task_queue = 4;
  self_thread = 8;
  next = 0;
}

abbrev called_back : CallbackInvocation
called_back = record {
  callback = 60;
  return_holder = 61;
  arguments = 62;
  payload = none;
  previous = 0;
}

abbrev pub blocks : Blocks
blocks p =
    if p == 1
    then some (
        semaphore (record {
          handle = 2;
          wait = platform_wait;
          signal = platform_signal;
          free = platform_free;
        }))
    else if p == 2
    then some (sem 1)
    else if p == 3
    then some (worker this)
    else if p == 4
    then some (queue_block 1 cells)
    else if p == 10
    then some (node_block 20 0)
    else if p == 20
    then some (task (task_of queued))
    else if p == 30
    then some (invocation called_back)
    else none

abbrev busy : State World
busy = state_with 50 blocks world

busy-IsReady : IsReady busy 3 4 1 2 cells (queued ∷ [])
busy-IsReady = record {
  ne_null = omega arith;
  this = this;
  shape = refl;
  task_queue = refl;
  channel = record {
    is_queue = record {
      ne_null = omega arith;
      shape = refl;
      linked = (refl, omega arith, refl, tt);
    };
    is_platform = record {
      ne_null = omega arith;
      handle_ne_null = omega arith;
      shape = refl;
      counts = refl;
    };
    is_heap = record { next_pos = omega arith; fresh = λ p le. ground arith; at_null = refl };
  };
  tasks = (omega arith, refl, tt, refl, tt);
}

callback_crosses_example :
    (a u s' : State World) × ((on_thread 7 (worker_callback_prepare 3 30)
          >> answer 3 30 9 (handed_over ∷ []))
        busy
      ≡ ok tt a)
    × (on_thread 7 (worker_enter_callback 5 3 30) a ≡ blocked (settled (record a { thread = 7 })))
    × (on_thread 8 (worker_run 5 3) a ≡ blocked u)
    × (on_thread 7 (worker_enter_callback 5 3 30) u ≡ ok tt s')
    × (s'.world ≡ effects (queued ∷ call 50 51 52 53 6 ∷ []) world)
    × IsReady s' 3 4 1 2 [] []
    × ((s'.heap).block 50 ≡ none)
    × ((s'.heap).block 51 ≡ none)
callback_crosses_example =
    callback_crosses 3 4 1 2 30 called_back this (handed_over ∷ []) 7 8 9 5 cells (queued ∷ []) busy
      busy-IsReady refl (omega arith) (omega arith) refl refl (omega arith, refl, tt, refl, tt)
      (omega arith) (omega arith) (omega arith)

-- where a worker is made, and released
abbrev bare : State World
bare = state_with 1 (λ p. none) world

bare-IsHeap : IsHeap bare.heap
bare-IsHeap = record { next_pos = omega arith; fresh = λ p le. refl; at_null = refl }

worker_new_spawning-IsReady_example :
    (worker_new_spawning true bare ≡ ok 1 (created true bare bare-IsHeap))
    × IsReady (created true bare bare-IsHeap) 1 4 2 3 [] []
    × ((created true bare bare-IsHeap).world ≡ world)
    × ((created true bare bare-IsHeap).started ≡ 1 ∷ [])
    × ((p : Ptr) → p < 1 → (created true bare bare-IsHeap).heap.block p ≡ none)
worker_new_spawning-IsReady_example =
    worker_new_spawning-IsReady true bare bare-IsHeap (omega arith) (omega arith)
      (inr (omega arith))

worker_release_lem_example :
    (t : State World) × (worker_release 2 3 busy ≡ ok tt t)
    × ((p : Ptr)
        → (t.heap).block p ≡ (if (p == 3) || (p == 4) || has p cells then none else blocks p))
    × ((p : Ptr) (x : WorkerTask) → blocks p ≡ some (task x) → (t.heap).block p ≡ some (task x))
    × ((t.heap).block 1 ≡ blocks 1)
    × ((t.heap).block 2 ≡ blocks 2)
worker_release_lem_example =
    worker_release_lem 3 4 1 2 2 cells (queued ∷ []) busy busy-IsReady (omega arith)

worker_release-worker_new_spawning_example :
    (t : State World) × ((worker_new_spawning true >>= worker_release 1) bare ≡ ok tt t)
    × ((p : Ptr)
        → (t.heap).block p ≡ (
            if p == 2
            then some (platform_block true bare bare-IsHeap)
            else if p == 3
            then some (sem 0)
            else none))
worker_release-worker_new_spawning_example =
    worker_release-worker_new_spawning true 1 bare bare-IsHeap (omega arith) (omega arith)
      (inr (omega arith)) (omega arith)

-- no mutex can be made
abbrev mutexless : State World
mutexless = record bare { mutex_budget = 0 }

worker_release-unqueued_example :
    (t : State World) × (worker_new_spawning true mutexless ≡ ok 1 t)
    × ((t.heap).block 1 ≡ some (worker (unqueued true mutexless bare-IsHeap)))
    × (t.started ≡ 1 ∷ [])
    × (worker_release 2 1 t ≡ fault)
worker_release-unqueued_example =
    worker_release-unqueued true mutexless bare-IsHeap 2 (omega arith) refl (inr (omega arith))

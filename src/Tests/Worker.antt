-- ===== src/Tests/Worker.antt =====
-- The workers of plugin/src/worker at concrete inputs.
use threaded_ffi_plugin.Prelude.{◌≡◌, Option, refl, some, none, [], ◌∷◌, ◌==◌, if◌then◌else◌, arith}
use threaded_ffi_plugin.Machine.{
  ok, blocked, ◌>>=◌, Ptr, Block, State, Worker, sem, semaphore, task, worker, platform_wait,
  platform_signal, platform_free, worker_enter, worker_return, worker_prepare,
}
use threaded_ffi_plugin.Queue.Cells.{Cells, queue_block, node_block, Blocks}
use threaded_ffi_plugin.Worker.{worker_run, worker_task_new, worker_dispatch_callout}
use threaded_ffi_plugin.Worker.Dispatch.{dispatched, dispatch-IsReady}
use threaded_ffi_plugin.Primitives.Workers.{same_thread_call}
use threaded_ffi_plugin.Primitives.Workers.Callout.{worker_run-same_thread_call}
use threaded_ffi_plugin.Worker.Tasks.{call, return_to, return_here, task_of, IsReady}
use threaded_ffi_plugin.Worker.Run.{Finishes, run-Ran}
use threaded_ffi_plugin.Tests.SmallVm.{World, vm, ffi, world, state_with}

-- a worker at 3 with its queue at 4 (semaphore at 1 and 2) over the tasks at 20, 21 and 22; the
-- second one signals the semaphore at 30 and 31
abbrev cells : Cells
cells = (10, 20) ∷ (11, 21) ∷ (12, 22) ∷ []

abbrev this : Worker
this = record {
  runner = record {
    callback_enter_function = worker_enter;
    callback_exit_function = worker_return;
    callback_prepare_invocation = worker_prepare;
    callback_stack = 0;
  };
  thread_id = 0;
  task_queue = 4;
  self_thread = 0;
  next = 0;
}

abbrev platform_block : Ptr → Block
platform_block handle = semaphore (record {
  handle = handle;
  wait = platform_wait;
  signal = platform_signal;
  free = platform_free;
})

abbrev blocks : Blocks
blocks p =
    if p == 1
    then some (platform_block 2)
    else if p == 2
    then some (sem 3)
    else if p == 3
    then some (worker this)
    else if p == 4
    then some (queue_block 1 cells)
    else if p == 10
    then some (node_block 20 11)
    else if p == 11
    then some (node_block 21 12)
    else if p == 12
    then some (node_block 22 0)
    else if p == 20
    then some (task (task_of (call 40 41 42 43 5)))
    else if p == 21
    then some (task (task_of (return_to 30 31)))
    else if p == 22
    then some (task (task_of return_here))
    else if p == 30
    then some (platform_block 31)
    else if p == 31
    then some (sem 0)
    else none

abbrev busy : State World
busy = state_with 50 blocks world

busy-IsReady : IsReady busy 3 4 1 2 cells (call 40 41 42 43 5 ∷ return_to 30 31 ∷ return_here ∷ [])
busy-IsReady = record {
  ne_null = omega arith;
  this = this;
  shape = refl;
  task_queue = refl;
  channel = record {
    is_queue = record {
      ne_null = omega arith;
      shape = refl;
      linked = (refl, omega arith, refl, (refl, omega arith, refl, (refl, omega arith, refl, tt)));
    };
    is_platform = record {
      ne_null = omega arith;
      handle_ne_null = omega arith;
      shape = refl;
      counts = refl;
    };
    is_heap = record { next_pos = omega arith; fresh = λ p le. ground arith; at_null = refl };
  };
  tasks = (
    omega arith,
    refl,
    tt,
    refl,
    (
      omega arith,
      refl,
      (
        0,
        record { ne_null = omega arith; handle_ne_null = omega arith; shape = refl; counts = refl },
        omega arith,
        omega arith,
      ),
      refl,
      (omega arith, refl, tt, refl, tt),
    ),
  );
}

run-Ran_example :
    Finishes 3 4 1 2
      (call 40 41 42 43 5 ∷ return_to 30 31 ∷ return_here ∷ [])
      busy
      (worker_run 5 3 busy)
run-Ran_example =
    run-Ran 3 4 1 2 cells (call 40 41 42 43 5 ∷ return_to 30 31 ∷ return_here ∷ []) busy
      busy-IsReady 5 (omega arith)

-- the same worker with nothing to do
abbrev idle_blocks : Ptr → Option Block
idle_blocks p =
    if p == 1
    then some (platform_block 2)
    else if p == 2
    then some (sem 0)
    else if p == 3
    then some (worker this)
    else if p == 4
    then some (queue_block 1 [])
    else none

abbrev idle : State World
idle = state_with 5 idle_blocks world

idle-IsReady : IsReady idle 3 4 1 2 [] []
idle-IsReady = record {
  ne_null = omega arith;
  this = this;
  shape = refl;
  task_queue = refl;
  channel = record {
    is_queue = record { ne_null = omega arith; shape = refl; linked = tt };
    is_platform = record {
      ne_null = omega arith;
      handle_ne_null = omega arith;
      shape = refl;
      counts = refl;
    };
    is_heap = record { next_pos = omega arith; fresh = λ p le. ground arith; at_null = refl };
  };
  tasks = tt;
}

dispatch-IsReady_example :
    ((worker_task_new 40 41 42 43 5 >>= worker_dispatch_callout 3) idle
      ≡ ok tt (dispatched 3 4 1 2 [] [] idle idle-IsReady 40 41 42 43 5))
    × IsReady
        (dispatched 3 4 1 2 [] [] idle idle-IsReady 40 41 42 43 5)
        3
        4
        1
        2
        ((6, 5) ∷ [])
        (call 40 41 42 43 5 ∷ [])
    × ((dispatched 3 4 1 2 [] [] idle idle-IsReady 40 41 42 43 5).world ≡ world)
dispatch-IsReady_example =
    dispatch-IsReady 3 4 1 2 [] [] idle idle-IsReady 40 41 42 43 5 tt (omega arith) (omega arith)

worker_run-same_thread_call_example :
    (t u : State World) × ((worker_task_new 40 41 42 43 5 >>= worker_dispatch_callout 3) idle
      ≡ ok tt t)
    × (worker_run 2 3 t ≡ blocked u)
    × (same_thread_call 41 40 43 42 5 idle ≡ ok tt (record idle { world = u.world }))
worker_run-same_thread_call_example =
    worker_run-same_thread_call 3 4 1 2 idle idle-IsReady 40 41 42 43 5 2 (omega arith)
      (omega arith) (omega arith)

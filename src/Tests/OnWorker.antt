-- ===== src/Tests/OnWorker.antt =====
-- A callback on the thread of its worker, at a concrete input.
use threaded_ffi_plugin.Prelude.{◌≡◌, refl, true, some, none, [], ◌∷◌, ◌==◌, if◌then◌else◌, arith}
use threaded_ffi_plugin.Machine.{
  ok, State, Callback, Worker, callback, worker, semaphore, pharo_wait, pharo_signal, pharo_free,
}
use threaded_ffi_plugin.Queue.Cells.{Blocks, queue_block}
use threaded_ffi_plugin.Worker.Tasks.{call, IsReady, effects}
use threaded_ffi_plugin.Callbacks.Stack.{answered}
use threaded_ffi_plugin.Callbacks.OnWorker.{CanCall}
use threaded_ffi_plugin.Callbacks.Reentry.{called_back, callback_frontend_reenters}
use threaded_ffi_plugin.Tests.SmallVm.{World, vm, ffi, world, state_with}
use threaded_ffi_plugin.Tests.Reentry.{cells, queued, handed_over, this, blocks}

-- a callback of the worker at 3
abbrev of_worker : Callback
of_worker = record {
  runner = some 3;
  user_data = none;
  closure = some 65;
  prepared = true;
  function_address = some 66;
  parameter_types = some 67;
}

-- the callback at 60, and the empty queue of pending callbacks at 70 with its semaphore at 71
abbrev with_callback : Blocks
with_callback p =
    if p == 60
    then some (callback of_worker)
    else if p == 70
    then some (queue_block 71 [])
    else if p == 71
    then some (
        semaphore
          (record { handle = 9; wait = pharo_wait; signal = pharo_signal; free = pharo_free }))
    else blocks p

abbrev calling : State World
calling = record (state_with 80 with_callback world) { callback_queue = 70; thread = 8 }

calling-CanCall : CanCall 60 61 62 3 4 1 2 71 9 of_worker this cells [] (queued ∷ []) 3 calling
calling-CanCall = record {
  ne_null = omega arith;
  shape = refl;
  runner = refl;
  at = refl;
  prepares = refl;
  exits = refl;
  own = refl;
  ready = record {
    ne_null = omega arith;
    this = this;
    shape = refl;
    task_queue = refl;
    channel = record {
      is_queue = record {
        ne_null = omega arith;
        shape = refl;
        linked = (refl, omega arith, refl, tt);
      };
      is_platform = record {
        ne_null = omega arith;
        handle_ne_null = omega arith;
        shape = refl;
        counts = refl;
      };
      is_heap = record { next_pos = omega arith; fresh = λ p le. ground arith; at_null = refl };
    };
    tasks = (omega arith, refl, tt, refl, tt);
  };
  tasks = (omega arith, refl, tt, refl, tt);
  is_pending = record {
    is_queue = record { ne_null = omega arith; shape = refl; linked = tt };
    is_pharo = record { ne_null = omega arith; shape = refl };
    is_heap = record { next_pos = omega arith; fresh = λ p le. ground arith; at_null = refl };
  };
  apart = λ p within. refl;
  queues = omega arith;
  memory = omega arith;
}

callback_frontend_reenters_example :
    (s' : State World) × (called_back 5 8 9 60 61 62 3 (handed_over ∷ []) calling ≡ ok tt s')
    × (s'.world
        ≡ effects
            (queued ∷ call 50 51 52 53 6 ∷ [])
            (answered (λ w. 2) (vm.signal_semaphore_with_index 9 world)))
    × IsReady s' 3 4 1 2 [] []
    × ((s'.heap).block 80 ≡ none)
    × ((y : Worker) × ((s'.heap).block 3 ≡ some (worker y)) × (y.runner ≡ this.runner))
callback_frontend_reenters_example =
    callback_frontend_reenters 60 61 62 3 4 1 2 71 9 of_worker this cells (queued ∷ [])
      (handed_over ∷ []) calling calling-CanCall 9 5 refl refl (omega arith) (omega arith)
      (omega arith)

-- ===== src/Tests/Queue.antt =====
-- The queue of plugin/src/queue at concrete inputs.
use threaded_ffi_plugin.Prelude.{◌≡◌, ◌||◌, refl, some, none, [], ◌∷◌, ◌==◌, if◌then◌else◌, arith}
use threaded_ffi_plugin.Machine.{
  Ptr, ok, State, sem, semaphore, platform_wait, platform_signal, platform_free,
}
use threaded_ffi_plugin.Queue.Cells.{has, Cells, queue_block, node_block, Blocks}
use threaded_ffi_plugin.Queue.Channel.{IsChannel}
use threaded_ffi_plugin.Queue.{threadsafe_queue_size, threadsafe_queue_free}
use threaded_ffi_plugin.Queue.Whole.{threadsafe_queue_size_lem, threadsafe_queue_free_lem}
use threaded_ffi_plugin.Queue.Fifo.{put, take, fifo, run, Agrees, run-fifo}
use threaded_ffi_plugin.Tests.SmallVm.{World, vm, world, state_with}

-- a queue at 3 with its semaphore at 1 and 2, over one element
abbrev cells : Cells
cells = (4, 50) ∷ []

abbrev blocks : Blocks
blocks p =
    if p == 1
    then some (
        semaphore (record {
          handle = 2;
          wait = platform_wait;
          signal = platform_signal;
          free = platform_free;
        }))
    else if p == 2
    then some (sem 1)
    else if p == 3
    then some (queue_block 1 cells)
    else if p == 4
    then some (node_block 50 0)
    else none

abbrev one : State World
one = state_with 5 blocks world

one-IsChannel : IsChannel one 3 1 2 cells
one-IsChannel = record {
  is_queue = record { ne_null = omega arith; shape = refl; linked = (refl, omega arith, refl, tt) };
  is_platform = record {
    ne_null = omega arith;
    handle_ne_null = omega arith;
    shape = refl;
    counts = refl;
  };
  is_heap = record { next_pos = omega arith; fresh = λ p le. ground arith; at_null = refl };
}

run-fifo_example :
    Agrees 3 1 2 (some (50 ∷ 60 ∷ [], 70 ∷ [])) (run 3 (put 60 ∷ take ∷ put 70 ∷ take ∷ []) one)
unfolding fifo
run-fifo_example =
    run-fifo 3 1 2 (put 60 ∷ take ∷ put 70 ∷ take ∷ []) cells one one-IsChannel (omega arith)
      (omega arith)

threadsafe_queue_size_lem_example : threadsafe_queue_size 2 3 one ≡ ok 1 one
threadsafe_queue_size_lem_example =
    threadsafe_queue_size_lem 3 1 2 cells one one-IsChannel.is_queue (omega arith) (omega arith)

threadsafe_queue_free_lem_example :
    (t : State World) × (threadsafe_queue_free 2 3 one ≡ ok tt t)
    × ((p : Ptr) → (t.heap).block p ≡ (if (p == 3) || has p cells then none else blocks p))
threadsafe_queue_free_lem_example =
    threadsafe_queue_free_lem 3 1 2 cells one one-IsChannel.is_queue (omega arith)

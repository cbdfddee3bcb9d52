-- ===== src/Tests/Threads.antt =====
-- Threads at one queue, at concrete inputs.
use threaded_ffi_plugin.Prelude.{
  ℕ, ◌<◌, ◌≡◌, ◌≢◌, ◌⊎◌, refl, ap, ◌&&◌, ltb, some, none, List, [], ◌∷◌, ◌++◌, ◌==◌, if◌then◌else◌,
  arith,
}
use threaded_ffi_plugin.Machine.{
  Ptr, raw, write, semaphore, sem, platform_wait, platform_signal, platform_free, State, ok,
  blocked, fault, malloc, store, load,
}
use threaded_ffi_plugin.Machine.Access.{write-allocated}
use threaded_ffi_plugin.Semaphores.Wait.{settled, wait-suc, wait-zero}
use threaded_ffi_plugin.Queue.Cells.{Cells, queue_block, node_block}
use threaded_ffi_plugin.Queue.Channel.{IsChannel}
use threaded_ffi_plugin.Queue.Threads.{
  leaving, idle, called, filled, waiting, woken, System, step_put, step_take, calls, puts, takes,
  Steps, start, later,
}
use threaded_ffi_plugin.Queue.Threads.Family.{update}
use threaded_ffi_plugin.Queue.Threads.Safety.{at_rest, Steps-fifo, no_lost_wakeup}
use threaded_ffi_plugin.Queue.Threads.Progress.{TakeGoes, PutGoes, no_deadlock}
use threaded_ffi_plugin.Queue.Threads.Exclusion.{mutual_exclusion}
use threaded_ffi_plugin.Queue.Threads.Invariant.{InSection, TakesIn}
use threaded_ffi_plugin.Queue.Threads.Race.{take_twice, take_twice-fault}
use threaded_ffi_plugin.Tests.SmallVm.{World, vm, world, state_with}

-- a semaphore at 1 with its `sem_t` at 2, and a queue at 3 with the elements 50 and 51
abbrev cells : Cells
cells = (4, 50) ∷ (5, 51) ∷ []

abbrev with_queue : Cells → ℕ → ℕ → State World
with_queue cs count next =
    state_with next
      (λ p.
        if p == 1
        then some (
            semaphore (record {
              handle = 2;
              wait = platform_wait;
              signal = platform_signal;
              free = platform_free;
            }))
        else if p == 2
        then some (sem count)
        else if p == 3
        then some (queue_block 1 cs)
        else if (p == 4) && ltb p next
        then some (node_block 50 5)
        else if (p == 5) && ltb p next
        then some (node_block 51 0)
        else none)
      world

abbrev two : State World
two = with_queue cells 2 6

two-IsChannel : IsChannel two 3 1 2 cells
two-IsChannel = record {
  is_queue = record {
    ne_null = omega arith;
    shape = refl;
    linked = (refl, omega arith, refl, (refl, omega arith, refl, tt));
  };
  is_platform = record {
    ne_null = omega arith;
    handle_ne_null = omega arith;
    shape = refl;
    counts = refl;
  };
  is_heap = record { next_pos = omega arith; fresh = λ p le. ground arith; at_null = refl };
}

-- Thread 0 calls with 60 and fills its node; then the thread that takes waits for a unit.
abbrev filled_memory : State World
filled_memory = record two {
  heap = record {
    next = 7;
    budget = 19;
    block = λ p. if p == 6 then some (node_block 60 0) else (two.heap).block p;
  };
}

fills : step_put 3 (called 60) two ≡ ok (filled 6 60) filled_memory
unfolding step_put malloc store
fills = ap (ok (filled 6 60)) (write-allocated two (some raw) (some (node_block 60 0)))

waits :
    step_take 3 waiting filled_memory ≡ ok woken (write (settled filled_memory) 2 (some (sem 1)))
unfolding step_take load
waits =
    rw
      (wait-suc 1 2 1 filled_memory (record {
        ne_null = omega arith;
        handle_ne_null = omega arith;
        shape = refl;
        counts = refl;
      }))
      refl

abbrev after_call : System World
after_call = record (at_rest two cells) { putting = update (λ i. idle) 0 (called 60) }

abbrev after_fill : System World
after_fill = record after_call {
  memory = filled_memory;
  putting = update (update (λ i. idle) 0 (called 60)) 0 (filled 6 60);
}

abbrev after_wait : System World
after_wait = record after_fill {
  memory = write (settled filled_memory) 2 (some (sem 1));
  taking = woken;
}

three_steps : Steps 3 2 (at_rest two cells) after_wait
three_steps =
    later (later (later start (calls 0 60 (omega arith) refl)) (puts 0 (omega arith) fills))
      (takes waits)

Steps-fifo_example :
    ((rest : List Ptr) × (after_wait.was_put ≡ after_wait.given ++ rest))
    × (step_take 3 after_wait.taking after_wait.memory ≢ fault)
    × ((i : ℕ)
        → i < 2
        → (after_wait.memory.heap).budget ≢ 0
        → step_put 3 (after_wait.putting i) after_wait.memory ≢ fault)
Steps-fifo_example = Steps-fifo 3 1 2 2 two cells two-IsChannel (omega arith) after_wait three_steps

mutual_exclusion_example :
    ((i j : ℕ) → InSection (after_wait.putting i) → InSection (after_wait.putting j) → i ≡ j)
    × ((i : ℕ) → InSection (after_wait.putting i) → ¬ TakesIn after_wait.taking)
mutual_exclusion_example =
    mutual_exclusion 3 1 2 2 two cells two-IsChannel (omega arith) after_wait three_steps

no_deadlock_example :
    TakeGoes 3 1 2 2 after_wait
    ⊎ (PutGoes 3 1 2 2 after_wait
        ⊎ (((i : ℕ) → i < 2 → after_wait.putting i ≡ idle)
            × (woken ≡ waiting)
            × (after_wait.was_put ≡ after_wait.given)))
no_deadlock_example =
    no_deadlock 3 1 2 2 two cells two-IsChannel (omega arith) after_wait three_steps (omega arith)

take_twice-fault_example :
    (t : State World) × (take_twice 3 two ≡ ok (leaving 4 50, leaving 4 50) t)
    × ((t.heap).block 4 ≡ none)
    × ((t.heap).block 5 ≡ some (node_block 51 0))
    × ((t.heap).block 3 ≡ some (queue_block 1 []))
    × (step_take 3 (leaving 4 50) t ≡ fault)
take_twice-fault_example = take_twice-fault 3 1 2 4 50 5 51 two two-IsChannel

-- the same without elements
abbrev empty : State World
empty = with_queue [] 0 4

empty-IsChannel : IsChannel empty 3 1 2 []
empty-IsChannel = record {
  is_queue = record { ne_null = omega arith; shape = refl; linked = tt };
  is_platform = record {
    ne_null = omega arith;
    handle_ne_null = omega arith;
    shape = refl;
    counts = refl;
  };
  is_heap = record { next_pos = omega arith; fresh = λ p le. ground arith; at_null = refl };
}

stays_waiting : step_take 3 waiting empty ≡ blocked (settled empty)
unfolding step_take load
stays_waiting = rw (wait-zero 1 2 empty empty-IsChannel.is_platform) refl

no_lost_wakeup_example : (at_rest empty []).was_put ≡ (at_rest empty []).given
no_lost_wakeup_example =
    no_lost_wakeup 3 1 2 2 empty [] empty-IsChannel (omega arith) (at_rest empty []) start
      (settled empty) refl stays_waiting (λ i lt. refl)

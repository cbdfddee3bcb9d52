-- ===== src/Tests/Primitives.antt =====
-- The primitives at concrete inputs.
use threaded_ffi_plugin.Prelude.{◌≡◌, ◌≢◌, false, refl, none, [], ◌∷◌, ◌==◌, if◌then◌else◌, arith}
use threaded_ffi_plugin.Machine.{State, stop}
use threaded_ffi_plugin.Primitives.Workers.{primitive_create_worker}
use threaded_ffi_plugin.Primitives.Workers.Create.{create_worker-unstarted}
use threaded_ffi_plugin.Queue.Cells.{IsHeap}
use threaded_ffi_plugin.Primitives.Types.Struct.Make as Make
use threaded_ffi_plugin.Tests.SmallVm.{
  ffi, World, vm, world, state_with, external_address, array_class,
}

-- external addresses at 20 and 30, a return holder at 100, and an array at 40 of the arguments 110
-- and 120; the objects from 100 on are pinned
abbrev asked : World
asked = record world {
  arguments = 4;
  stack = 20 ∷ 100 ∷ 30 ∷ 40 ∷ 50 ∷ [];
  word = λ p.
      if p == 20
      then external_address
      else if p == 30
      then external_address
      else if p == 40
      then array_class
      else if p == 41
      then 2
      else if p == 42
      then 110
      else if p == 43
      then 120
      else 0;
}

abbrev empty : State World
empty = state_with 1 (λ p. none) asked

-- a struct type at 20 of two members at 60 and 70, with the offsets to go to the array at 50
abbrev pub described : World
described = record world {
  stack = 20 ∷ [];
  word = λ p.
      if p == 20
      then array_class
      else if p == 21
      then 3
      else if p == 22
      then 30
      else if p == 23
      then 40
      else if p == 24
      then 50
      else if p == 30
      then external_address
      else if p == 40
      then array_class
      else if p == 41
      then 2
      else if p == 42
      then 60
      else if p == 43
      then 70
      else if p == 50
      then array_class
      else if p == 51
      then 2
      else if p == 60
      then array_class
      else if p == 61
      then 1
      else if p == 62
      then 80
      else if p == 70
      then array_class
      else if p == 71
      then 1
      else if p == 72
      then 80
      else if p == 80
      then external_address
      else if p == 82
      then 600
      else 0;
}

abbrev pub unmade : State World
unmade = state_with 1 (λ p. none) described

pub unmade-IsHeap : IsHeap unmade.heap
unmade-IsHeap = record { next_pos = omega arith; fresh = λ p le. refl; at_null = refl }

abbrev exhausted : State World
exhausted = record (state_with 1 (λ p. none) world) { thread_budget = 0 }

create_worker-unstarted_example :
    (t : State World) × (primitive_create_worker exhausted ≡ stop t)
    × (t.world ≡ world)
    × (vm.failed t.world ≡ false)
    × ((t.heap).block 1 ≢ none)
create_worker-unstarted_example =
    create_worker-unstarted exhausted (omega arith) (omega arith) refl refl

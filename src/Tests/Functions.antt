-- ===== src/Tests/Functions.antt =====
-- The primitives that make and give back descriptions, at concrete inputs.
use threaded_ffi_plugin.Prelude.{refl, none, some, [], ◌∷◌, ◌==◌, ◌≡◌, if◌then◌else◌, arith}
use threaded_ffi_plugin.Machine.{Ptr, State, ok, null, cif, pointers, malloc, store, load, free}
use threaded_ffi_plugin.Machine.Results.{state_of}
use threaded_ffi_plugin.Queue.Cells.{IsHeap}
use threaded_ffi_plugin.Utils.Handles.{HasHandle, IsCalledOn, handled}
use threaded_ffi_plugin.Primitives.Functions.{define_function_with_and, primitive_free_definition}
use threaded_ffi_plugin.Primitives.Functions.Definition.{
  define_function_with_and_lem, free_definition-define,
}
use threaded_ffi_plugin.Primitives.Types.{primitive_free_struct}
use threaded_ffi_plugin.Primitives.Types.Struct.{primitive_initialize_struct_type}
use threaded_ffi_plugin.Primitives.Types.Free.{free_struct-initialize_struct_type}
use threaded_ffi_plugin.Tests.SmallVm.{
  World, vm, ffi, world, state_with, external_address, array_class,
}
use threaded_ffi_plugin.Tests.Primitives.{unmade, unmade-IsHeap}

-- two parameter types at 5
abbrev typed : State World
typed = state_with 6 (λ p. if p == 5 then some (pointers (601 ∷ 602 ∷ [])) else none) world

typed-IsHeap : IsHeap typed.heap
typed-IsHeap = record { next_pos = omega arith; fresh = λ p le. ground arith; at_null = refl }

define_function_with_and_lem_example :
    (t : State World) × (define_function_with_and 5 2 603 typed ≡ ok 6 t)
    × (t.world ≡ world)
    × ((q : Ptr) → (t.heap).block q ≡ (if q == 6 then some (cif 5) else (typed.heap).block q))
define_function_with_and_lem_example =
    define_function_with_and_lem 5 (601 ∷ 602 ∷ []) 2 603 typed typed-IsHeap (omega arith)
      (omega arith) refl

-- the object 40 has the external address 60 for its handle, which holds 6
abbrev asked : World
asked = record world {
  stack = 40 ∷ [];
  word = λ p.
      if p == 40
      then array_class
      else if p == 41
      then 1
      else if p == 42
      then 60
      else if p == 60
      then external_address
      else if p == 62
      then 6
      else 0;
}

abbrev defined : State World
defined =
    (define_function_with_and_lem 5 (601 ∷ 602 ∷ []) 2 603 typed typed-IsHeap (omega arith)
      (omega arith) refl).0

asked-HasHandle : HasHandle asked 40 60 6
asked-HasHandle = record { slot = refl; fetched = refl; external = refl; address = refl }

free_definition-define_example :
    (u : State World) × (primitive_free_definition (record defined { world = asked }) ≡ ok tt u)
    × (u.world ≡ handled 60 null asked)
    × ((q : Ptr) → (u.heap).block q ≡ (if q == 5 then none else (typed.heap).block q))
free_definition-define_example =
    free_definition-define 5 (601 ∷ 602 ∷ []) 2 603 typed typed-IsHeap (omega arith) (omega arith)
      refl defined asked 40 60
      (define_function_with_and_lem 5 (601 ∷ 602 ∷ []) 2 603 typed typed-IsHeap (omega arith)
        (omega arith) refl).1
      refl refl asked-HasHandle

-- the struct type of `unmade`
made : State World
unfolding primitive_initialize_struct_type state_of
made = state_of unmade tt (primitive_initialize_struct_type unmade)

makes : primitive_initialize_struct_type unmade ≡ ok tt made
unfolding made primitive_initialize_struct_type malloc store load free
makes = refl

made-IsCalledOn : IsCalledOn made.world 20
unfolding made primitive_initialize_struct_type malloc store load free
made-IsCalledOn = record { receiver = refl; sound = refl }

made-HasHandle : HasHandle made.world 20 30 1
unfolding made primitive_initialize_struct_type malloc store load free
made-HasHandle = record { slot = refl; fetched = refl; external = refl; address = refl }

free_struct-initialize_struct_type_example :
    (u : State World) × (primitive_free_struct made ≡ ok tt u)
    × (u.world ≡ handled 30 null made.world)
    × ((q : Ptr) → (u.heap).block q ≡ (unmade.heap).block q)
free_struct-initialize_struct_type_example =
    free_struct-initialize_struct_type unmade made unmade-IsHeap 20 30 made-IsCalledOn
      made-HasHandle makes

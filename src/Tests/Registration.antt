-- ===== src/Tests/Registration.antt =====
-- `primitiveRegisterCallback` at a concrete input.
use threaded_ffi_plugin.Prelude.{
  ◌≡◌, Bool, true, false, refl, none, some, [], ◌∷◌, ◌==◌, if◌then◌else◌,
}
use threaded_ffi_plugin.Machine.{Run, ok, State, callback, malloc, load, store}
use threaded_ffi_plugin.Primitives.Callbacks.{primitive_register_callback}
use threaded_ffi_plugin.Tests.SmallVm.{
  ffi, World, vm, world, state_with, external_address, array_class,
}

-- a callback at 20 with the external addresses at 30 and 33, an array at 50 of one type object at
-- 60, which is the type of the result too, and a runner object at 70 with the runner at 5
abbrev asked : World
asked = record world {
  stack = 20 ∷ [];
  word = λ p.
      if p == 20
      then array_class
      else if p == 21
      then 5
      else if p == 22
      then 30
      else if p == 23
      then 33
      else if p == 24
      then 50
      else if p == 25
      then 60
      else if p == 26
      then 70
      else if p == 30
      then external_address
      else if p == 33
      then external_address
      else if p == 50
      then array_class
      else if p == 51
      then 1
      else if p == 52
      then 60
      else if p == 60
      then array_class
      else if p == 61
      then 1
      else if p == 62
      then 80
      else if p == 70
      then array_class
      else if p == 71
      then 1
      else if p == 72
      then 90
      else if p == 80
      then external_address
      else if p == 82
      then 600
      else if p == 90
      then external_address
      else if p == 92
      then 5
      else 0;
}

abbrev ready : State World
ready = state_with 1 (λ p. none) asked

-- the outcome at this input: a callback for the runner at 5
registers : Run World (Unit {0}) → Bool
registers (ok _ s) = elim ((s.heap).block 2) [
  | some (callback c) ↦ elim c.runner [ some r ↦ r == 5 | none ↦ false ]
  | _ ↦ false
]
registers _ = false

ready-registers : registers (primitive_register_callback ready) ≡ true
unfolding registers primitive_register_callback malloc load store
ready-registers = refl

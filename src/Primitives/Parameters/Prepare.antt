-- ===== src/Primitives/Parameters/Prepare.antt =====
-- `primitivePrepareParametersForCall`, and the memory that it leaves.
use threaded_ffi_plugin.Prelude.{ℕ, ◌+◌, true, ◌≡◌, ◌≢◌, some, List, ◌==◌, if◌then◌else◌}
use threaded_ffi_plugin.Machine.{
  Ptr, null, Block, raw, as_pointers, State, Run, Cmd, ok, stop, free, leave, skip, ◌>>=◌, ◌>>◌,
}
use threaded_ffi_plugin.Machine.Access.{allocated}
use threaded_ffi_plugin.Host.{Oop, Vm, ask}
use threaded_ffi_plugin.Utils.{write_address, primitive_fail, primitive_end}
use threaded_ffi_plugin.Utils.Reads.{address_written, popped, HasFailed}
use threaded_ffi_plugin.Queue.Cells.{IsHeap}
use threaded_ffi_plugin.Primitives.Parameters.Arguments.{behind_headers, pinned_arguments}

-- what is on the stack: the objects for the return address, for the holder of the result and for the
-- address of the array, and the arguments
abbrev pub operands : {W : Type 0} ⦃vm : Vm W⦄ → W → Oop × Oop × Oop × Oop × W
operands ⦃vm⦄ w =
    let (return_address, w0) = vm.stack_value 0 w in
    let (return_holder, w1) = vm.stack_value 1 w0 in
    let (parameter_address, w2) = vm.stack_value 2 w1 in
    let (arguments, w3) = vm.stack_value 3 w2 in
    (return_address, return_holder, parameter_address, arguments, w3)

-- the number of arguments, which is asked once the image has the address of the result
abbrev pub counted : {W : Type 0} ⦃vm : Vm W⦄ → W → ℕ × W
counted ⦃vm⦄ w =
    let (return_address, return_holder, parameter_address, arguments, now) = operands w in
    vm.st_size_of arguments
      (address_written return_address (return_holder + vm.base_header_size) now)

-- What the primitive can come to from a state with the memory of `s`.
pub data Outcome {W : Type 0} ⦃vm : Vm W⦄ (s : State W) : Run W (Unit {0}) → Type 0 where
  -- a failure, with the memory that there was
  left :
      (t : State W)
      → HasFailed t.world
      → ((q : Ptr) → (t.heap).block q ≡ (s.heap).block q)
      → Outcome s (stop t)
  -- no arguments: the image gets `NULL` for the address of the array
  without :
      (w : W) (t : State W)
      → w
        ≡ address_written
            (operands s.world).0
            ((operands s.world).1 + vm.base_header_size)
            (operands s.world).4
      → ((operands s.world).3 == vm.nil_object w) ≡ true
      → t.world ≡ popped (address_written (operands s.world).2 null w)
      → ((q : Ptr) → (t.heap).block q ≡ (s.heap).block q)
      → Outcome s (stop t)
  -- one new block, with the addresses of all the arguments, which are pinned; the image has its address
  prepared :
      (now : W) (os : List Oop) (x : Block) (t : State W)
      → vm.is_pinned (operands s.world).1 (operands s.world).4 ≡ true
      → pinned_arguments (counted s.world).0 0 (operands s.world).3 (counted s.world).1
        ≡ (some os, now)
      → as_pointers x ≡ some (behind_headers vm.base_header_size os)
      → t.world ≡ popped (address_written (operands s.world).2 (s.heap).next now)
      → ((q : Ptr) → (t.heap).block q ≡ (if q == (s.heap).next then some x else (s.heap).block q))
      → Outcome s (ok tt t)

module _ {W : Type 0} ⦃vm : Vm W⦄ (s : State W) (heap : IsHeap s.heap)
    (room : (s.heap).budget ≢ 0) where
  abbrev n : Ptr
  n = (s.heap).next

  abbrev in_world : W → State W
  in_world w = record (allocated s (some raw)) { world = w }

  -- after the loop
  finish : (parameter_address : Oop) → Cmd W (Unit {0})
  finish parameter_address =
      write_address parameter_address n
      >> (ask vm.failed >>= λ bad.
          (if bad then free n >> (primitive_fail >> leave) else skip) >> primitive_end)

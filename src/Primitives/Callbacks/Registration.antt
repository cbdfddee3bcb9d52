-- ===== src/Primitives/Callbacks/Registration.antt =====
-- The whole of `primitiveRegisterCallback`.
use threaded_ffi_plugin.Prelude.{ℕ, ◌≤◌, ◌≡◌, true, some}
use threaded_ffi_plugin.Machine.{Run, Ptr, Block, raw, State, write, ◌>>=◌, ◌>>◌}
use threaded_ffi_plugin.Machine.Access.{allocated}
use threaded_ffi_plugin.Host.{Vm, Ffi}
use threaded_ffi_plugin.Queue.Cells.{IsHeap}
use threaded_ffi_plugin.Primitives.Callbacks.Register.{Requested, typed, world_created, Outcome}

-- What the code relies on: a primitive that was made to fail has failed, and it does not matter to
-- that whether a closure is freed.
module _ {W : Type 0} ⦃vm : Vm W⦄ ⦃ffi : Ffi W⦄
    (fails : (code : ℕ) (w : W) → vm.failed (vm.primitive_fail_for code w) ≡ true)
    (frees : (closure : Ptr) (w : W) → vm.failed (ffi.closure_free closure w) ≡ vm.failed w) where
  module _ (s : State W) (heap : IsHeap s.heap) (room : 3 ≤ (s.heap).budget) (x : Requested W) where
    abbrev n : Ptr
    n = (s.heap).next

    -- what the primitive comes to
    abbrev Ends : Run W (Unit {0}) → Type 0
    Ends = Outcome s x (world_created s x)

    abbrev filled : Block → State W
    filled b = record (write (allocated s (some raw)) n (some b)) { world = (typed s x).1 }

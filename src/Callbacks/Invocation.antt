-- ===== src/Callbacks/Invocation.antt =====
-- The invocation that `callbackFrontend` makes among its local variables.
use threaded_ffi_plugin.Prelude.{◌+◌, Option, some, ◌==◌, if◌then◌else◌}
use threaded_ffi_plugin.Machine.{Ptr, Block, CallbackInvocation, State}
use threaded_ffi_plugin.Queue.Cells.{Cells, IsHeap}
use threaded_ffi_plugin.Queue.Frames.{IsHeap-allocated}
use threaded_ffi_plugin.Queue.Pending.{IsPending, IsPending-allocated}

-- the state with a local variable
abbrev pub placed : {W : Type 0} → State W → Block → State W
placed s x = record s {
  heap = record {
    next = (s.heap).next + 1;
    budget = (s.heap).budget;
    block = λ q. if q == (s.heap).next then some x else (s.heap).block q;
  };
}

-- the invocation that `callbackFrontend` makes, with a payload
abbrev pub invocation_of : (cb ret args previous : Ptr) → Option Ptr → CallbackInvocation
invocation_of cb ret args previous payload = record {
  callback = cb;
  return_holder = ret;
  arguments = args;
  payload = payload;
  previous = previous;
}

pub IsHeap-placed :
    {W : Type 0} (s : State W) (x : Block) → IsHeap s.heap → IsHeap (placed s x).heap
IsHeap-placed s x heap =
    let more = IsHeap-allocated s (some x) heap in
    record { next_pos = more.next_pos; fresh = more.fresh; at_null = more.at_null }

pub IsPending-placed :
    {W : Type 0} (q semaphore index : Ptr) (cells : Cells) (s : State W) (x : Block)
    → IsPending s q semaphore index cells
    → IsPending (placed s x) q semaphore index cells
IsPending-placed q semaphore index cells s x is =
    let more = IsPending-allocated q semaphore index cells s x is in
    record {
      is_queue = more.is_queue;
      is_pharo = record { ne_null = more.is_pharo.ne_null; shape = more.is_pharo.shape };
      is_heap = IsHeap-placed s x is.is_heap;
    }

-- ===== src/Queue/Frames.antt =====
-- The blocks that a put and a take leave as they are.
use mathlib.Core.Path.{subst}
use threaded_ffi_plugin.Prelude.{◌≡◌, ◌≢◌, ap, Option, none, some, [], ◌∷◌, arith, ◌∙◌, sym}
use threaded_ffi_plugin.Machine.{Ptr, null, Block, queue, State, write}
use threaded_ffi_plugin.Machine.Access.{allocated}
use threaded_ffi_plugin.Queue.Steps.{structure}
use threaded_ffi_plugin.Queue.Cells.{Blocks, Cells, last_ptr, IsQueue, IsHeap, last-node}
use threaded_ffi_plugin.Queue.Contents.{enqueued, update, update_ne, IsOther}
use threaded_ffi_plugin.Queue.Put.{appended}

-- Where a node or a queue stands, no other block does.
pub other-ne :
    (b : Blocks) (p r : Ptr) (x y : Block)
    → b p ≡ some x
    → b r ≡ some y
    → IsOther (some x)
    → ¬ IsOther (some y)
    → p ≢ r
other-ne b p r x y ep er o not_o e = not_o (subst IsOther (sym ep ∙ ap b e ∙ er) o)

-- A put changes no block but the queue and its nodes.
pub enqueued-other :
    (b : Blocks) (q semaphore : Ptr) (cells : Cells) (n v p : Ptr) (x : Block)
    → IsQueue b q semaphore cells
    → b n ≡ none
    → b p ≡ some x
    → IsOther (some x)
    → enqueued b q semaphore cells n v p ≡ some x
enqueued-other b q semaphore [] n v p x is fresh e o =
    let p_q = other-ne b p q x _ e is.shape o (λ z. z) in
    let p_n : p ≢ n = λ i. cc (e, fresh, ap b i) in ground arith
enqueued-other b q semaphore (c ∷ cs) n v p x is fresh e o =
    let p_q = other-ne b p q x _ e is.shape o (λ z. z) in
    let p_n : p ≢ n = λ i. cc (e, fresh, ap b i) in
    let p_l = other-ne b p (last_ptr (c ∷ cs)) x _ e (last-node b c cs is.linked).0 o (λ z. z) in
    ground arith

-- So does a take.
pub dequeued-other :
    (b : Blocks) (q semaphore a v : Ptr) (rest : Cells) (p : Ptr) (x : Block)
    → IsQueue b q semaphore ((a, v) ∷ rest)
    → b p ≡ some x
    → IsOther (some x)
    → update (update b q (some (queue (structure semaphore rest)))) a none p ≡ some x
dequeued-other b q semaphore a v rest p x is e o =
    let p_q = other-ne b p q x _ e is.shape o (λ z. z) in
    let p_a = other-ne b p a x _ e is.linked.0 o (λ z. z) in ground arith

-- Writing or giving back an allocated block keeps the heap well formed.
pub IsHeap-write :
    {W : Type 0} (s : State W) (p : Ptr) (x : Option Block) (y : Block)
    → IsHeap s.heap
    → (s.heap).block p ≡ some y
    → IsHeap (write s p x).heap
IsHeap-write s p x y heap e = record {
  next_pos = heap.next_pos;
  fresh = λ r le.
      let r_p : r ≢ p = λ i. cc (e, heap.fresh r le, ap ((s.heap).block) i) in
      ground (arith, heap.fresh r le);
  at_null =
      let n_p : null ≢ p = λ i. cc (e, heap.at_null, ap ((s.heap).block) i) in
      ground (arith, heap.at_null);
}

-- Nor does a put allocate anything but its node.
pub enqueued-none :
    (b : Blocks) (q semaphore : Ptr) (cells : Cells) (n v r : Ptr)
    → IsQueue b q semaphore cells
    → b r ≡ none
    → r ≢ n
    → enqueued b q semaphore cells n v r ≡ none
enqueued-none b q semaphore [] n v r is e r_n =
    let r_q : r ≢ q = λ i. cc (e, is.shape, ap b i) in ground arith
enqueued-none b q semaphore (c ∷ cs) n v r is e r_n =
    let r_q : r ≢ q = λ i. cc (e, is.shape, ap b i) in
    let r_l : r ≢ last_ptr (c ∷ cs) = λ i. cc (e, (last-node b c cs is.linked).0, ap b i) in
    ground arith

pub IsHeap-appended :
    {W : Type 0} (s : State W) (q semaphore v : Ptr) (cells : Cells)
    → IsQueue (s.heap).block q semaphore cells
    → IsHeap s.heap
    → IsHeap (appended s q semaphore cells v).heap
IsHeap-appended s q semaphore v cells is heap = record {
  next_pos = omega arith;
  fresh = λ r le.
      enqueued-none (s.heap).block q semaphore cells (s.heap).next v r is
        (heap.fresh r (omega arith)) (omega arith);
  at_null =
      enqueued-none (s.heap).block q semaphore cells (s.heap).next v null is heap.at_null
        (omega (arith, heap.next_pos));
}

module _ {W : Type 0} (s : State W) where
  pub IsHeap-allocated : (b : Option Block) → IsHeap s.heap → IsHeap (allocated s b).heap
  IsHeap-allocated b heap = record {
    next_pos = omega arith;
    fresh = λ p le.
        update_ne (s.heap).block (s.heap).next b p (omega arith) ∙ heap.fresh p (omega arith);
    at_null =
        update_ne (s.heap).block (s.heap).next b 0 (omega (arith, heap.next_pos)) ∙ heap.at_null;
  }

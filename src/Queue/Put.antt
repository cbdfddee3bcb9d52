-- ===== src/Queue/Put.antt =====
-- The halves of `threadsafe_queue_put`.
use mathlib.Core.Path.{subst}
use threaded_ffi_plugin.Prelude.{
  ◌+◌, ◌-◌, ◌≡◌, ◌≢◌, refl, ap, true, some, [], ◌∷◌, ◌++◌, arith, sym,
}
use threaded_ffi_plugin.Machine.{
  Ptr, null, Block, TsQueue, TsQueueNode, queue, node, raw, State, ok, write, ◌>>◌, skip,
}
use threaded_ffi_plugin.Machine.Access.{
  store-ok, malloc-ok, allocated, write-allocated, write-write-write,
}
use threaded_ffi_plugin.Host.{Vm}
use threaded_ffi_plugin.Semaphores.{signal}
use threaded_ffi_plugin.Queue.{link, threadsafe_queue_put}
use threaded_ffi_plugin.Queue.Steps.{
  Holds, put, put-put, Holds-put, load-queue, lock-ok, unlock-ok, set_first-ok, set_last-ok,
  set_next-ok, structure,
}
use threaded_ffi_plugin.Queue.Cells.{
  Blocks, Cells, last_ptr, last_element, node_block, IsQueue, IsHeap, last-node, last_ptr-append,
}
use threaded_ffi_plugin.Queue.Contents.{enqueued, linked_last, IsOther, IsQueue-other}

-- the state with the blocks `b`
abbrev pub with_blocks : {W : Type 0} → State W → Blocks → State W
with_blocks s b = record s { heap = record (s.heap) { block = b } }

module _ {W : Type 0} (q semaphore n v : Ptr) (s : State W) where
  -- the structure of the queue while the mutex is held
  abbrev held : Cells → TsQueue
  held cells = record (structure semaphore cells) { mutex = true }

  -- The node `n` is linked behind the nodes of the queue, whose mutex is held.
  link-held :
      (cells : Cells)
      → IsQueue (s.heap).block q semaphore cells
      → link q n (put s q (held cells))
        ≡ ok tt (
            put
              (with_blocks s (linked_last (s.heap).block cells n))
              q
              (held (cells ++ (n, v) ∷ [])))
  unfolding link
  link-held [] is =
      let r : TsQueue = held [] in
      let h = Holds-put s q r is.ne_null in
      let r' : TsQueue = record r { first = n } in
      rw (load-queue h) (
        ground (
          arith,
          set_first-ok h n,
          put-put s q r r',
          set_last-ok (Holds-put s q r' is.ne_null) n,
          put-put s q r' (record r' { last = n }),
        ))
  link-held (c ∷ cs) is =
      let r : TsQueue = held (c ∷ cs) in
      let l = last_ptr (c ∷ cs) in
      let m : TsQueueNode = record { element = last_element (c ∷ cs); next = null } in
      let m' : TsQueueNode = record { element = last_element (c ∷ cs); next = n } in
      let s' : State W = write (put s q r) l (some (node m')) in
      let (at_last, nn, _) = last-node (s.heap).block c cs is.linked in
      let apart : l ≢ q = λ e. cc (at_last, is.shape, ap (s.heap).block e) in
      let h' : Holds s' q r = record { ne_null = is.ne_null; here = ground arith } in
      rw (load-queue (Holds-put s q r is.ne_null)) (
        ground (
          arith,
          set_next-ok (put s q r) l n m nn (ground arith),
          set_last-ok h' n,
          write-write-write s q l (some (queue r)) (some (node m'))
              (some (queue (record r { last = n }))),
          last_ptr-append (c ∷ cs) n v,
        ))

-- the state with `v` behind `cells`, in a new node
abbrev pub appended : {W : Type 0} → State W → (q semaphore : Ptr) → Cells → Ptr → State W
appended s q semaphore cells v = record s {
  heap = record {
    next = (s.heap).next + 1;
    budget = (s.heap).budget - 1;
    block = enqueued (s.heap).block q semaphore cells (s.heap).next v;
  };
}

-- The new node is not yet known to the queue.
IsQueue-allocated :
    {W : Type 0} (s : State W) (q semaphore : Ptr) (cells : Cells) (b : Block)
    → IsQueue (s.heap).block q semaphore cells
    → IsHeap s.heap
    → IsQueue (allocated s (some b)).heap.block q semaphore cells
IsQueue-allocated s q semaphore cells b is heap =
    IsQueue-other (s.heap).block q semaphore cells (s.heap).next (some b) is
      (subst IsOther (sym (heap.fresh (s.heap).next (omega arith))) tt)

module _ {W : Type 0} ⦃vm : Vm W⦄ (q semaphore v : Ptr) (cells : Cells) (s : State W) where
  -- A put links a new node and frees the mutex; what is left is the signal.
  pub put-signal :
      IsQueue (s.heap).block q semaphore cells
      → IsHeap s.heap
      → (s.heap).budget ≢ 0
      → threadsafe_queue_put q v s ≡ (signal semaphore >> skip) (appended s q semaphore cells v)
  unfolding threadsafe_queue_put
  put-signal is heap room =
      let n = (s.heap).next in
      let cells' = cells ++ (n, v) ∷ [] in
      let b = node_block v null in
      let s1 : State W = allocated s (some b) in
      let is1 = IsQueue-allocated s q semaphore cells b is heap in
      let h1 : Holds s1 q (structure semaphore cells) = record {
        ne_null = is.ne_null;
        here = is1.shape;
      } in
      let s2 : State W = with_blocks s1 (linked_last (s1.heap).block cells n) in
      let r2 : TsQueue = held q semaphore n v s1 cells' in
      rw (
        malloc-ok s room,
        store-ok (allocated s (some raw)) n raw (ground (arith, heap.next_pos)) (ground arith) b,
        write-allocated s (some raw) (some b),
        lock-ok h1 refl,
        link-held q semaphore n v s1 cells is1,
        unlock-ok (Holds-put s2 q r2 is.ne_null),
        put-put s2 q r2 (structure semaphore cells'),
        load-queue (Holds-put s2 q (structure semaphore cells') is.ne_null),
      )

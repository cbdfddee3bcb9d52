-- ===== src/Queue/Take.antt =====
-- The halves of `threadsafe_queue_take`.
use threaded_ffi_plugin.Prelude.{◌≡◌, ◌≢◌, refl, ap, true, none, some, [], ◌∷◌, arith, ◌∙◌}
use threaded_ffi_plugin.Machine.{Ptr, null, TsQueue, TsQueueNode, node, State, ok, write, as_node}
use threaded_ffi_plugin.Machine.Access.{load-ok, free-ok}
use threaded_ffi_plugin.Queue.{unlink, take_first}
use threaded_ffi_plugin.Queue.Steps.{
  Holds, put, put-put, Holds-put, load-queue, lock-ok, unlock-ok, set_first-ok, set_last-ok,
  structure,
}
use threaded_ffi_plugin.Queue.Cells.{
  Blocks, Cells, head_ptr, last_ptr, has, queue_block, Linked, IsQueue, last-node,
}

-- A node with a successor is not the last one.
pub not-alone :
    (b : Blocks) (a v : Ptr) (c : Ptr × Ptr) (rest : Cells)
    → Linked b ((a, v) ∷ c ∷ rest)
    → a ≢ last_ptr (c ∷ rest)
not-alone b a v c rest (e, nn, out, l) p =
    let (e', nn', i) = last-node b c rest l in cc (ap (λ x. has x (c ∷ rest)) p)

-- the state with the node `a` given back and the queue at `q` over `rest`
abbrev pub dequeued : {W : Type 0} → State W → (q semaphore a : Ptr) → Cells → State W
dequeued s q semaphore a rest = write (write s q (some (queue_block semaphore rest))) a none

module _ {W : Type 0} (s : State W) (q : Ptr) (r : TsQueue) (h : Holds s q r) where
  pub unlink-last :
      (n : Ptr)
      → r.first ≡ r.last
      → unlink q n s ≡ ok tt (put s q (record r { first = null; last = null }))
  unfolding unlink
  unlink-last n e =
      let r' : TsQueue = record r { first = null } in
      rw (load-queue h) (
        ground (
          arith,
          set_first-ok h null,
          set_last-ok (Holds-put s q r' h.ne_null) null,
          put-put s q r' (record r' { last = null }),
        ))

  pub unlink-more :
      (n : Ptr) (c : TsQueueNode)
      → r.first ≢ r.last
      → n ≢ null
      → (s.heap).block n ≡ some (node c)
      → unlink q n s ≡ ok tt (put s q (record r { first = c.next }))
  unfolding unlink
  unlink-more n c e nn at_n =
      rw (load-queue h)
        (ground (arith, load-ok s n (node c) nn at_n as_node c refl, set_first-ok h c.next))

-- The critical section of `threadsafe_queue_take` on a queue over `cells`, a write at a time.
module _ {W : Type 0} (q semaphore : Ptr) (s : State W) where
  abbrev held : Cells → State W
  held cells = put s q (record (structure semaphore cells) { mutex = true })

  structure-Holds :
      (cells : Cells)
      → IsQueue (s.heap).block q semaphore cells
      → Holds s q (structure semaphore cells)
  structure-Holds cells is = record { ne_null = is.ne_null; here = is.shape }

  pub take_first-nil : IsQueue (s.heap).block q semaphore [] → take_first q s ≡ ok null s
  unfolding take_first
  take_first-nil is = rw (load-queue (structure-Holds [] is))

  unlink-held :
      (a v : Ptr) (rest : Cells)
      → IsQueue (s.heap).block q semaphore ((a, v) ∷ rest)
      → unlink q a (held ((a, v) ∷ rest)) ≡ ok tt (held rest)
  unlink-held a v [] is =
      let r : TsQueue = record (structure semaphore ((a, v) ∷ [])) { mutex = true } in
      unlink-last (put s q r) q r (Holds-put s q r is.ne_null) a refl ∙ ap (ok tt) (put-put s q r _)
  unlink-held a v (d ∷ rest) is =
      let r : TsQueue = record (structure semaphore ((a, v) ∷ d ∷ rest)) { mutex = true } in
      let c : TsQueueNode = record { element = v; next = head_ptr (d ∷ rest) } in
      unlink-more (put s q r) q r (Holds-put s q r is.ne_null) a c
        (not-alone (s.heap).block a v d rest is.linked) is.linked.1 (ground arith)
      ∙ ap (ok tt) (put-put s q r _)

  pub take_first-cons :
      (a v : Ptr) (rest : Cells)
      → IsQueue (s.heap).block q semaphore ((a, v) ∷ rest)
      → take_first q s ≡ ok v (dequeued s q semaphore a rest)
  unfolding take_first
  take_first-cons a v rest is =
      let h = structure-Holds ((a, v) ∷ rest) is in
      let c : TsQueueNode = record { element = v; next = head_ptr rest } in
      let r : TsQueue = record (structure semaphore rest) { mutex = true } in
      let done : TsQueue = structure semaphore rest in
      rw (load-queue h) (
        ground (
          arith,
          load-ok s a (node c) is.linked.1 is.linked.0 as_node c refl,
          lock-ok h refl,
          unlink-held a v rest is,
          unlock-ok (Holds-put s q r is.ne_null),
          put-put s q r done,
          free-ok (put s q done) a (node c),
        ))

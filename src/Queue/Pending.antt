-- ===== src/Queue/Pending.antt =====
-- The queue of pending callbacks, whose semaphore is one of the virtual machine.
use mathlib.Core.Path.{subst}
use threaded_ffi_plugin.Prelude.{◌≡◌, ◌≢◌, sym, ap, ◌∙◌, Option, none, some, [], ◌∷◌, ◌++◌, arith}
use threaded_ffi_plugin.Machine.{Ptr, null, Block, State, ok, write}
use threaded_ffi_plugin.Machine.Access.{allocated}
use threaded_ffi_plugin.Host.{Vm}
use threaded_ffi_plugin.Semaphores.Wait.{IsPharo, wait-pharo, signal-pharo}
use threaded_ffi_plugin.Queue.{threadsafe_queue_put, threadsafe_queue_take}
use threaded_ffi_plugin.Queue.Steps.{load-queue}
use threaded_ffi_plugin.Queue.Cells.{Cells, head_ptr, node_block, queue_block, IsQueue, IsHeap}
use threaded_ffi_plugin.Queue.Contents.{
  update_ne, IsOther, IsQueue-other, IsQueue-put, IsQueue-take,
}
use threaded_ffi_plugin.Queue.Put.{appended, put-signal}
use threaded_ffi_plugin.Queue.Take.{dequeued, take_first-nil, take_first-cons}
use threaded_ffi_plugin.Queue.Channel.{IsQueue-Holds}
use threaded_ffi_plugin.Queue.Frames.{enqueued-other, dequeued-other, IsHeap-write, IsHeap-appended}

-- The queue at `q` over `cells`, with the external semaphore `index` of the virtual machine.
pub record IsPending {W : Type 0} (s : State W) (q semaphore index : Ptr) (cells : Cells)
    : Type 0 where
  pub is_queue : IsQueue (s.heap).block q semaphore cells
  pub is_pharo : IsPharo s semaphore index
  pub is_heap : IsHeap s.heap

module _ {W : Type 0} ⦃vm : Vm W⦄ (q semaphore index v : Ptr) (cells : Cells) (s : State W) where
  -- the state after a put
  abbrev pub announced : State W
  announced = record (appended s q semaphore cells v) {
    world = vm.signal_semaphore_with_index index s.world;
  }

  appended-IsPharo :
      IsPending s q semaphore index cells → IsPharo (appended s q semaphore cells v) semaphore index
  appended-IsPharo p = record {
    ne_null = p.is_pharo.ne_null;
    shape =
        enqueued-other (s.heap).block q semaphore cells (s.heap).next v semaphore _ p.is_queue
          (p.is_heap.fresh (s.heap).next (omega arith)) p.is_pharo.shape tt;
  }

  -- A put appends the invocation and signals the virtual machine once.
  pub put-announced :
      IsPending s q semaphore index cells
      → (s.heap).budget ≢ 0
      → threadsafe_queue_put q v s ≡ ok tt announced
  put-announced p room = rw (
    put-signal q semaphore v cells s p.is_queue p.is_heap room,
    signal-pharo semaphore index (appended s q semaphore cells v) (appended-IsPharo p),
  )

  pub announced-IsPending :
      IsPending s q semaphore index cells
      → IsPending announced q semaphore index (cells ++ ((s.heap).next, v) ∷ [])
  announced-IsPending p = record {
    is_queue =
        IsQueue-put (s.heap).block q semaphore cells (s.heap).next v p.is_queue
          (omega (arith, p.is_heap.next_pos)) (p.is_heap.fresh (s.heap).next (omega arith));
    is_pharo = record { ne_null = p.is_pharo.ne_null; shape = (appended-IsPharo p).shape };
    is_heap = IsHeap-appended s q semaphore v cells p.is_queue p.is_heap;
  }

module _ {W : Type 0} (q semaphore index : Ptr) (s : State W) where
  -- A take never blocks: from the empty queue it gives `NULL`.
  pub poll-nil : IsPending s q semaphore index [] → threadsafe_queue_take q s ≡ ok null s
  unfolding threadsafe_queue_take
  poll-nil p =
      rw
        (
          load-queue (IsQueue-Holds q semaphore [] s p.is_queue),
          wait-pharo semaphore index s p.is_pharo,
        )
        (take_first-nil q semaphore s p.is_queue)

  -- Otherwise it gives the oldest invocation, and leaves the rest.
  pub poll-cons :
      (a v : Ptr) (rest : Cells)
      → IsPending s q semaphore index ((a, v) ∷ rest)
      → threadsafe_queue_take q s ≡ ok v (dequeued s q semaphore a rest)
  unfolding threadsafe_queue_take
  poll-cons a v rest p =
      rw
        (
          load-queue (IsQueue-Holds q semaphore ((a, v) ∷ rest) s p.is_queue),
          wait-pharo semaphore index s p.is_pharo,
        )
        (take_first-cons q semaphore s a v rest p.is_queue)

  pub polled-IsPending :
      (a v : Ptr) (rest : Cells)
      → IsPending s q semaphore index ((a, v) ∷ rest)
      → IsPending (dequeued s q semaphore a rest) q semaphore index rest
  polled-IsPending a v rest p =
      let is = p.is_queue in
      let a_q : a ≢ q = λ j. cc (is.linked.0, is.shape, ap (s.heap).block j) in
      let s1 : State W = write s q (some (queue_block semaphore rest)) in
      record {
        is_queue = IsQueue-take (s.heap).block q semaphore a v rest is;
        is_pharo = record {
          ne_null = p.is_pharo.ne_null;
          shape =
              dequeued-other (s.heap).block q semaphore a v rest semaphore _ is p.is_pharo.shape tt;
        };
        is_heap =
            IsHeap-write s1 a none (node_block v (head_ptr rest))
              (IsHeap-write s q _ _ p.is_heap is.shape)
              (update_ne (s.heap).block q _ a a_q ∙ is.linked.0);
      }

-- Writing a block that is neither part of the queue nor its semaphore keeps the queue.
pub IsPending-write :
    {W : Type 0} (q semaphore index : Ptr) (cells : Cells) (s : State W) (p : Ptr) (x : Block)
    (y : Option Block)
    → IsPending s q semaphore index cells
    → (s.heap).block p ≡ some x
    → IsOther (some x)
    → p ≢ semaphore
    → IsPending (write s p y) q semaphore index cells
IsPending-write q semaphore index cells s p x y is e o p_s = record {
  is_queue =
      IsQueue-other (s.heap).block q semaphore cells p y is.is_queue (subst IsOther (sym e) o);
  is_pharo = record {
    ne_null = is.is_pharo.ne_null;
    shape = update_ne (s.heap).block p y semaphore (λ j. p_s (sym j)) ∙ is.is_pharo.shape;
  };
  is_heap = IsHeap-write s p y x is.is_heap e;
}

-- So does `malloc`, and so do changes of the world.
pub IsPending-allocated :
    {W : Type 0} (q semaphore index : Ptr) (cells : Cells) (s : State W) (x : Block)
    → IsPending s q semaphore index cells
    → IsPending (allocated s (some x)) q semaphore index cells
IsPending-allocated q semaphore index cells s x is =
    let n = (s.heap).next in
    let fresh = is.is_heap.fresh n (omega arith) in
    record {
      is_queue =
          IsQueue-other (s.heap).block q semaphore cells n (some x) is.is_queue
            (subst IsOther (sym fresh) tt);
      is_pharo = record {
        ne_null = is.is_pharo.ne_null;
        shape =
            update_ne (s.heap).block n (some x) semaphore
              (λ j. cc (is.is_pharo.shape, fresh, ap (s.heap).block j))
            ∙ is.is_pharo.shape;
      };
      is_heap = record {
        next_pos = omega arith;
        fresh = λ p le.
            update_ne (s.heap).block n (some x) p (omega arith) ∙ is.is_heap.fresh p (omega arith);
        at_null =
            update_ne (s.heap).block n (some x) null (omega (arith, is.is_heap.next_pos))
            ∙ is.is_heap.at_null;
      };
    }

pub IsPending-world :
    {W : Type 0} (q semaphore index : Ptr) (cells : Cells) (s : State W) (w : W)
    → IsPending s q semaphore index cells
    → IsPending (record s { world = w }) q semaphore index cells
IsPending-world q semaphore index cells s w is = record {
  is_queue = is.is_queue;
  is_pharo = record { ne_null = is.is_pharo.ne_null; shape = is.is_pharo.shape };
  is_heap = is.is_heap;
}

-- ===== src/Callbacks/Read.antt =====
-- The read of the one pending callback, which came from the thread of a worker.
use threaded_ffi_plugin.Prelude.{ℕ, ◌+◌, ◌≡◌, ◌≢◌, ap, ◌∙◌, false, List, [], ◌∷◌, ◌==◌, arith}
use threaded_ffi_plugin.Machine.{Ptr, null, Callback, Worker, State, ok}
use threaded_ffi_plugin.Host.{Vm}
use threaded_ffi_plugin.Queue.Cells.{Cells}
use threaded_ffi_plugin.Queue.Pending.{IsPending, poll-cons}
use threaded_ffi_plugin.Worker.Tasks.{Request}
use threaded_ffi_plugin.Worker.Serve.{AreTasks-Kept}
use threaded_ffi_plugin.Worker.Frames.{IsReady-thread, AreTasks-Stays}
use threaded_ffi_plugin.Callbacks.{queue_next_pending_callback}
use threaded_ffi_plugin.Callbacks.Apart.{AreApart, Linked-node, read-other, read-Kept, read-IsReady}
use threaded_ffi_plugin.Callbacks.OnWorker.{CanCall, Asked}

module _ {W : Type 0} ⦃vm : Vm W⦄ (cb ret args w q semaphore h ps index : Ptr) (c : Callback)
    (x : Worker) (cells : Cells) (rs : List Request) (room : ℕ) (s : State W)
    (can : CanCall cb ret args w q semaphore h ps index c x cells [] rs room s) where
  abbrev i : Ptr
  i = (s.heap).next

  -- The new node of the pending queue is none of the worker's.
  new-AreApart : AreApart cells ((i + 1, i) ∷ [])
  new-AreApart p within =
      let channel = can.ready.channel in
      let (v, m, e) = Linked-node (s.heap).block cells p channel.is_queue.linked within in
      let p_n : p ≢ i + 1 =
        λ j. cc (e, channel.is_heap.fresh (i + 1) (omega arith), ap (s.heap).block j) in
      ground (arith, p_n)

  -- On whichever thread it reads, the virtual machine gets the invocation, and the worker is as it was.
  pub read-Asked :
      (a : State W) (v : ℕ)
      → Asked cb ret args w q semaphore h ps index c x cells [] rs room s a
      → IsPending a a.callback_queue ps index ((i + 1, i) ∷ [])
      → (b : State W) × (queue_next_pending_callback (record a { thread = v }) ≡ ok i b)
        × Asked cb ret args w q semaphore h ps index c x cells [] rs room s b
  unfolding queue_next_pending_callback
  read-Asked a v asked pending =
      let pq = a.callback_queue in
      let queues : q ≢ pq = λ j. can.queues (j ∙ asked.queue) in
      let a' : State W = record a { thread = v } in
      let pending' : IsPending a' pq ps index ((i + 1, i) ∷ []) = record {
        is_queue = pending.is_queue;
        is_pharo = record { ne_null = pending.is_pharo.ne_null; shape = pending.is_pharo.shape };
        is_heap = pending.is_heap;
      } in
      let other =
        read-other w q semaphore h pq ps index (i + 1) i cells [] rs a' new-AreApart queues
          pending' in
      let there : (pq == null) ≡ false = ground (arith, pending.is_queue.ne_null) in
      (
        _,
        rw there (poll-cons pq ps index a' (i + 1) i [] pending'),
        record {
          real = asked.real;
          ready =
              read-IsReady w q semaphore h pq ps index (i + 1) i cells [] rs a' new-AreApart queues
                pending' (IsReady-thread a v w q semaphore h cells rs asked.ready);
          tasks =
              AreTasks-Kept a' _ h room room cells rs
                (read-Kept w q semaphore h pq ps index (i + 1) i cells [] rs a' new-AreApart queues
                  pending' room)
                (AreTasks-Stays a a' (λ p z f e. e) h room room cells rs (omega arith) asked.tasks);
          at_worker = other w _ asked.at_worker tt;
          at_invocation = other i _ asked.at_invocation tt;
          at_callback = other cb _ asked.at_callback tt;
          world = asked.world;
          budget = asked.budget;
          queue = asked.queue;
        },
      )

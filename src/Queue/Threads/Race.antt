-- ===== src/Queue/Threads/Race.antt =====
-- Two threads that take from one queue, which the mutex does not keep apart: `first` and its element
-- are read before the lock.
use threaded_ffi_plugin.Prelude.{
  ◌≡◌, ◌≢◌, refl, sym, ap, ◌∙◌, true, none, some, [], ◌∷◌, eq-false, arith,
}
use threaded_ffi_plugin.Machine.{
  Ptr, null, TsQueue, TsQueueNode, node, sem, State, Cmd, ok, fault, write, as_node, ◌>>=◌, ◌>>◌,
  pure, free,
}
use threaded_ffi_plugin.Machine.Access.{load-ok, free-ok}
use threaded_ffi_plugin.Semaphores.Wait.{settled, wait-suc}
use threaded_ffi_plugin.Queue.Cells.{node_block, queue_block}
use threaded_ffi_plugin.Queue.Contents.{update_ne}
use threaded_ffi_plugin.Queue.Steps.{
  Holds, put, Holds-put, structure, load-queue, lock-ok, unlock-ok,
}
use threaded_ffi_plugin.Queue.Channel.{IsChannel}
use threaded_ffi_plugin.Queue.Take.{unlink-last, unlink-more}
use threaded_ffi_plugin.Queue.Threads.{
  waiting, woken, found, seen, holding, unlinked, leaving, step_take, Taking,
}
use threaded_ffi_plugin.Queue.Threads.Shared.{IsShared, count-IsShared, settled-IsShared}

free-fault :
    {W : Type 0} (s : State W) (p : Ptr) → p ≢ null → (s.heap).block p ≡ none → free p s ≡ fault
unfolding free
free-fault s p real gone = ground (arith, real, gone)

module _ {W : Type 0} where
  -- Two threads wait, and each reads `first` and its element; then one takes its node to the end, and
  -- the other takes its own until it has to give it back. What each of them was about to give back.
  unfoldable pub take_twice : Ptr → Cmd W (Taking × Taking)
  unfolding step_take
  take_twice q = do
    x1 ← step_take q waiting
    y1 ← step_take q waiting
    x2 ← step_take q x1
    y2 ← step_take q y1
    x3 ← step_take q x2
    y3 ← step_take q y2
    x4 ← step_take q x3
    x5 ← step_take q x4
    x6 ← step_take q x5
    step_take q x6
    y4 ← step_take q y3
    y5 ← step_take q y4
    y6 ← step_take q y5
    pure (x6, y6)

module _ {W : Type 0} (q semaphore h a v b w : Ptr) (s : State W)
    (ch : IsChannel s q semaphore h ((a, v) ∷ (b, w) ∷ [])) where
  abbrev r : TsQueue
  r = structure semaphore ((a, v) ∷ (b, w) ∷ [])

  abbrev r' : TsQueue
  r' = record r { first = b }

  abbrev r'' : TsQueue
  r'' = record r { first = null; last = null }

  shared : IsShared q semaphore h s ((a, v) ∷ (b, w) ∷ []) r 2
  shared = record {
    holds = record { ne_null = ch.is_queue.ne_null; here = ch.is_queue.shape };
    front = refl;
    source = refl;
    chain = ch.is_queue.linked;
    platform = ch.is_platform;
    heap = ch.is_heap;
  }

  -- both have waited
  abbrev s1 : State W
  s1 = write (settled s) h (some (sem 1))

  abbrev s2 : State W
  s2 = write (settled s1) h (some (sem 0))

  shared1 : IsShared q semaphore h s1 ((a, v) ∷ (b, w) ∷ []) r 1
  shared1 = count-IsShared (settled-IsShared shared) 1

  shared2 : IsShared q semaphore h s2 ((a, v) ∷ (b, w) ∷ []) r 0
  shared2 = count-IsShared (settled-IsShared shared1) 0

  abbrev locked : TsQueue → TsQueue
  locked x = record x { mutex = true }

  abbrev n : TsQueueNode
  n = record { element = v; next = b }

  -- one has unlinked its node, and then given it back
  abbrev t1 : State W
  t1 = put s2 q (locked r)

  abbrev t2 : State W
  t2 = put t1 q (locked r')

  abbrev t3 : State W
  t3 = put t2 q r'

  abbrev s3 : State W
  s3 = write t3 a none

  -- the other has unlinked the node that is left
  abbrev t4 : State W
  t4 = put s3 q (locked r')

  abbrev t5 : State W
  t5 = put t4 q (locked r'')

  abbrev s4 : State W
  s4 = put t5 q r''

  real : q ≢ null
  real = ch.is_queue.ne_null

  a_real : a ≢ null
  a_real = shared2.chain.1

  a_b : a ≢ b
  a_b = ground (arith, shared2.chain.2)

  a_q : a ≢ q
  a_q j = cc (shared2.chain.0, shared2.holds.here, ap (s2.heap).block j)

  b_q : b ≢ q
  b_q j = cc (shared2.chain.3.0, shared2.holds.here, ap (s2.heap).block j)

  b_a : b ≢ a
  b_a j = a_b (sym j)

  at_b : (s2.heap).block b ≡ some (node_block w null)
  at_b = shared2.chain.3.0

  at_a : (t1.heap).block a ≡ some (node n)
  at_a = update_ne (s2.heap).block q _ a a_q ∙ shared2.chain.0

  holds3 : Holds s3 q r'
  holds3 = record {
    ne_null = real;
    here = update_ne (t3.heap).block a none q (λ j. a_q (sym j)) ∙ (Holds-put t2 q r' real).here;
  }

  wait_first : step_take q waiting s ≡ ok woken s1
  unfolding step_take
  wait_first = rw (load-queue shared.holds, wait-suc semaphore h 1 s shared.platform) refl

  wait_second : step_take q waiting s1 ≡ ok woken s2
  unfolding step_take
  wait_second = rw (load-queue shared1.holds, wait-suc semaphore h 0 s1 shared1.platform) refl

  finds : step_take q woken s2 ≡ ok (found a) s2
  unfolding step_take
  finds = rw (load-queue shared2.holds, eq-false a null a_real) refl

  sees : step_take q (found a) s2 ≡ ok (seen a v) s2
  unfolding step_take
  sees = rw (load-ok s2 a (node n) a_real shared2.chain.0 as_node n refl) refl

  locks_first : step_take q (seen a v) s2 ≡ ok (holding a v) t1
  unfolding step_take
  locks_first = rw (lock-ok shared2.holds refl) refl

  unlinks_first : step_take q (holding a v) t1 ≡ ok (unlinked a v) t2
  unfolding step_take
  unlinks_first =
      rw (unlink-more t1 q (locked r) (Holds-put s2 q (locked r) real) a n a_b a_real at_a) refl

  unlocks_first : step_take q (unlinked a v) t2 ≡ ok (leaving a v) t3
  unfolding step_take
  unlocks_first = rw (unlock-ok (Holds-put t1 q (locked r') real)) refl

  frees_first : step_take q (leaving a v) t3 ≡ ok waiting s3
  unfolding step_take
  frees_first = rw (free-ok t3 a (node n) a_real (ground (arith, at_a, a_q))) refl

  locks_second : step_take q (seen a v) s3 ≡ ok (holding a v) t4
  unfolding step_take
  locks_second = rw (lock-ok holds3 refl) refl

  unlinks_second : step_take q (holding a v) t4 ≡ ok (unlinked a v) t5
  unfolding step_take
  unlinks_second = rw (unlink-last t4 q (locked r') (Holds-put s3 q (locked r') real) a refl) refl

  unlocks_second : step_take q (unlinked a v) t5 ≡ ok (leaving a v) s4
  unfolding step_take
  unlocks_second = rw (unlock-ok (Holds-put t4 q (locked r'') real)) refl

  frees_again : step_take q (leaving a v) s4 ≡ fault
  unfolding step_take
  frees_again = rw (free-fault s4 a a_real (ground (arith, a_q))) refl

  -- Where two threads take at the same time from a queue of two elements, both can get the first one:
  -- each comes to give the same node back with the same element, the node is gone when the first of
  -- them has, and the queue is empty, with the other node still allocated; to give the node back again
  -- is undefined behaviour.
  pub take_twice-fault :
      (t : State W) × (take_twice q s ≡ ok (leaving a v, leaving a v) t)
      × ((t.heap).block a ≡ none)
      × ((t.heap).block b ≡ some (node_block w null))
      × ((t.heap).block q ≡ some (queue_block semaphore []))
      × (step_take q (leaving a v) t ≡ fault)
  unfolding take_twice
  take_twice-fault = (
    s4,
    rw
        (
          wait_first, wait_second, finds, finds, sees, sees, locks_first, unlinks_first,
          unlocks_first, frees_first, locks_second, unlinks_second, unlocks_second,
        )
        refl,
    ground (arith, a_q),
    ground (arith, at_b, b_q, b_a),
    ground arith,
    frees_again,
  )

-- ===== src/Queue/Steps.antt =====
-- Each access of threadSafeQueue.c to the structure of a queue, as one write.
use threaded_ffi_plugin.Prelude.{◌≡◌, ◌≢◌, refl, true, false, some, arith}
use threaded_ffi_plugin.Machine.{
  Ptr, null, TsQueue, TsQueueNode, queue, node, as_queue, as_node, State, ok, write, load, store,
}
use threaded_ffi_plugin.Machine.Access.{write-write, load-ok, store-ok}
use threaded_ffi_plugin.Queue.Cells.{Cells, head_ptr, last_ptr}
use threaded_ffi_plugin.Queue.{lock, unlock, set_first, set_last, set_next}

-- the structure of the queue at `q` is `r`
pub record Holds {W : Type 0} (s : State W) (q : Ptr) (r : TsQueue) : Type 0 where
  pub ne_null : q ≢ null
  pub here : (s.heap).block q ≡ some (queue r)

-- the structure of a queue over `cells`
abbrev pub structure : Ptr → Cells → TsQueue
structure semaphore cells = record {
  first = head_ptr cells;
  last = last_ptr cells;
  mutex = false;
  semaphore = semaphore;
}

abbrev pub put : {W : Type 0} → State W → Ptr → TsQueue → State W
put s q r = write s q (some (queue r))

module _ {W : Type 0} (s : State W) (q : Ptr) where
  pub put-put : (r r' : TsQueue) → put (put s q r) q r' ≡ put s q r'
  put-put r r' = write-write s q (some (queue r)) (some (queue r'))

  pub Holds-put : (r : TsQueue) → q ≢ null → Holds (put s q r) q r
  Holds-put r nn = record { ne_null = nn; here = ground arith }

module _ {W : Type 0} {s : State W} {q : Ptr} {r : TsQueue} (h : Holds s q r) where
  pub load-queue : load as_queue q s ≡ ok r s
  load-queue = load-ok s q (queue r) h.ne_null h.here as_queue r refl

  pub store-queue : (r' : TsQueue) → store q (queue r') s ≡ ok tt (put s q r')
  store-queue r' = store-ok s q (queue r) h.ne_null h.here (queue r')

  pub lock-ok : r.mutex ≡ false → lock q s ≡ ok tt (put s q (record r { mutex = true }))
  unfolding lock
  lock-ok free = rw (load-queue, free) (store-queue (record r { mutex = true }))

  pub unlock-ok : unlock q s ≡ ok tt (put s q (record r { mutex = false }))
  unfolding unlock
  unlock-ok = rw load-queue (store-queue (record r { mutex = false }))

  pub set_first-ok : (p : Ptr) → set_first q p s ≡ ok tt (put s q (record r { first = p }))
  unfolding set_first
  set_first-ok p = rw load-queue (store-queue (record r { first = p }))

  pub set_last-ok : (p : Ptr) → set_last q p s ≡ ok tt (put s q (record r { last = p }))
  unfolding set_last
  set_last-ok p = rw load-queue (store-queue (record r { last = p }))

pub set_next-ok :
    {W : Type 0} (s : State W) (a p : Ptr) (n : TsQueueNode)
    → a ≢ null
    → (s.heap).block a ≡ some (node n)
    → set_next a p s ≡ ok tt (write s a (some (node (record n { next = p }))))
unfolding set_next
set_next-ok s a p n nn e =
    rw (load-ok s a (node n) nn e as_node n refl) (store-ok s a (node n) nn e _)

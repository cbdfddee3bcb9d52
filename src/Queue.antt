-- ===== src/Queue.antt =====
-- plugin/src/queue/threadSafeQueue.c: a linked list of nodes behind a mutex, with a semaphore that
-- counts the elements. A loop over the nodes takes fuel.
pub mod Cells
pub mod Steps
pub mod Contents
pub mod Put
pub mod Take
pub mod Frames
pub mod Channel
pub mod Pending
pub mod Fifo
pub mod Whole
pub mod Threads
use threaded_ffi_plugin.Prelude.{
  ℕ, zero, suc, ◌+◌, ◌-◌, ◌^◌, Bool, not, true, false, ◌==◌, if◌then◌else◌,
}
use threaded_ffi_plugin.Machine.{
  Ptr, null, TsQueue, TsQueueNode, queue, node, as_queue, as_node, State, Cmd, ok, blocked, fault,
  out_of_fuel, pure, ◌>>=◌, ◌>>◌, skip, malloc, load, store, free,
}
use threaded_ffi_plugin.Host.{Vm}
use threaded_ffi_plugin.Semaphores.{wait, signal}

-- `INT_MAX`: counting further is undefined behaviour.
abbrev pub int_max : ℕ
int_max = 2 ^ 31 - 1

module _ {W : Type 0} where
  -- `pthread_mutex_lock(&(queue->mutex))` and `pthread_mutex_unlock`, seen by the one thread that
  -- runs: a mutex that is held blocks it.
  unfoldable pub lock : Ptr → Cmd W (Unit {0})
  lock q = do
    this ← load as_queue q
    if this.mutex then blocked else store q (queue (record this { mutex = true }))

  unfoldable pub unlock : Ptr → Cmd W (Unit {0})
  unlock q = do this ← load as_queue q; store q (queue (record this { mutex = false }))

  -- `queue->first = p`, `queue->last = p` and `node->next = p`
  unfoldable pub set_first : Ptr → Ptr → Cmd W (Unit {0})
  set_first q p = do this ← load as_queue q; store q (queue (record this { first = p }))

  unfoldable pub set_last : Ptr → Ptr → Cmd W (Unit {0})
  set_last q p = do this ← load as_queue q; store q (queue (record this { last = p }))

  unfoldable pub set_next : Ptr → Ptr → Cmd W (Unit {0})
  set_next n p = do this ← load as_node n; store n (node (record this { next = p }))

  -- `pthread_mutex_init`: whether the mutex was made
  unfoldable pub mutex_init : Cmd W Bool
  mutex_init s = ok (not (s.mutex_budget == 0)) (record s { mutex_budget = s.mutex_budget - 1 })

  unfoldable pub threadsafe_queue_new : Ptr → Cmd W Ptr
  unfolding mutex_init
  threadsafe_queue_new semaphore = do
    made ← mutex_init
    if not made then pure null else (do
      q ← malloc
      store q (queue (record { first = null; last = null; mutex = false; semaphore = semaphore }))
      pure q)

  unfoldable pub free_nodes : ℕ → Ptr → Cmd W (Unit {0})
  free_nodes zero p = λ _. out_of_fuel
  free_nodes (suc fuel) p =
      if p == null then skip else (do this ← load as_node p; free p; free_nodes fuel this.next)

  -- The mutex that is locked is a copy of the queue's.
  unfoldable pub threadsafe_queue_free : ℕ → Ptr → Cmd W (Unit {0})
  unfolding free_nodes
  threadsafe_queue_free fuel q = do
    this ← load as_queue q
    if this.mutex then blocked else skip
    free_nodes fuel this.first
    free q

  unfoldable pub count_nodes : ℕ → ℕ → Ptr → Cmd W ℕ
  count_nodes zero size p = λ _. out_of_fuel
  count_nodes (suc fuel) size p = if p == null then pure size else (do
    this ← load as_node p
    if size == int_max then (λ _. fault) else count_nodes fuel (size + 1) this.next)

  unfoldable pub threadsafe_queue_size : ℕ → Ptr → Cmd W ℕ
  unfolding count_nodes lock unlock
  threadsafe_queue_size fuel q = do
    lock q
    this ← load as_queue q
    size ← count_nodes fuel 0 this.first
    unlock q
    pure size

  -- The part of `threadsafe_queue_put` between the lock and the unlock.
  unfoldable pub link : Ptr → Ptr → Cmd W (Unit {0})
  unfolding set_first set_last set_next
  link q n = do
    this ← load as_queue q
    if this.first == null
        then (do set_first q n; set_last q n)
        else (do set_next this.last n; set_last q n)

  -- The part of `threadsafe_queue_take` between the lock and the unlock.
  unfoldable pub unlink : Ptr → Ptr → Cmd W (Unit {0})
  unfolding set_first set_last
  unlink q n = do
    this ← load as_queue q
    if this.first == this.last
        then (do set_first q null; set_last q null)
        else (do removed ← load as_node n; set_first q removed.next)

  unfoldable pub take_first : Ptr → Cmd W Ptr
  unfolding lock unlock unlink
  take_first q = do
    this ← load as_queue q
    let first = this.first
    if first == null then pure null else (do
      removed ← load as_node first
      lock q
      unlink q first
      unlock q
      free first
      pure removed.element)

  unfoldable pub threadsafe_queue_take : Ptr → Cmd W Ptr
  unfolding take_first
  threadsafe_queue_take q = do
    this ← load as_queue q
    return_code ← wait this.semaphore
    if return_code == 0 then take_first q else pure null

module _ {W : Type 0} ⦃vm : Vm W⦄ where
  unfoldable pub threadsafe_queue_put : Ptr → Ptr → Cmd W (Unit {0})
  unfolding lock unlock link
  threadsafe_queue_put q element = do
    n ← malloc
    store n (node (record { element = element; next = null }))
    lock q
    link q n
    unlock q
    this ← load as_queue q
    signal this.semaphore
    skip

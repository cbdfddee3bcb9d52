-- ===== src/Queue/Threads.antt =====
-- Several threads at one queue: `threadsafe_queue_put` by any number of threads and
-- `threadsafe_queue_take` by one, the thread that serves the queue. Each function is cut at its
-- accesses to what the threads share; `step_put` and `step_take` run one piece.
pub mod Family
pub mod Shared
pub mod Links
pub mod Invariant
pub mod Moves
pub mod Puts
pub mod Section
pub mod Taker
pub mod Takes
pub mod Safety
pub mod Exclusion
pub mod Progress
pub mod Race
use threaded_ffi_plugin.Prelude.{ℕ, ◌<◌, ◌≡◌, List, [], ◌∷◌, ◌++◌, ◌==◌, if◌then◌else◌}
use threaded_ffi_plugin.Machine.{
  Ptr, null, node, as_queue, as_node, State, Cmd, ok, pure, ◌>>=◌, ◌>>◌, malloc, load, store, free,
}
use threaded_ffi_plugin.Host.{Vm}
use threaded_ffi_plugin.Semaphores.{wait, signal}
use threaded_ffi_plugin.Queue.{lock, unlock, set_first, set_last, set_next, unlink}
use Family.{update}

-- Where a thread stands in `threadsafe_queue_put`: it has filled its node, has locked the mutex, has
-- hung the node behind the last one, has made it the last one, or has only to signal.
pub data Putting : Type 0 where
  idle : Putting
  called : Ptr → Putting
  filled : Ptr → Ptr → Putting
  locked : Ptr → Ptr → Putting
  hung : Ptr → Putting
  linked : Putting
  unlocked : Putting

-- Where the thread stands in `threadsafe_queue_take`; `gave_null` is the return of `NULL`.
pub data Taking : Type 0 where
  waiting : Taking
  woken : Taking
  found : Ptr → Taking
  seen : Ptr → Ptr → Taking
  holding : Ptr → Ptr → Taking
  unlinked : Ptr → Ptr → Taking
  leaving : Ptr → Ptr → Taking
  gave_null : Taking

module _ {W : Type 0} where
  -- The first of the two writes that link a node.
  unfoldable pub hang : Ptr → Ptr → Cmd W (Unit {0})
  unfolding set_first set_next
  hang q n = do
    this ← load as_queue q
    if this.first == null then set_first q n else set_next this.last n

  unfoldable pub step_take : Ptr → Taking → Cmd W Taking
  unfolding lock unlock unlink
  step_take q waiting = do
    this ← load as_queue q
    return_code ← wait this.semaphore
    if return_code == 0 then pure woken else pure gave_null
  step_take q woken = do
    this ← load as_queue q
    if this.first == null then pure gave_null else pure (found this.first)
  step_take q (found a) = do removed ← load as_node a; pure (seen a removed.element)
  step_take q (seen a v) = do lock q; pure (holding a v)
  step_take q (holding a v) = do unlink q a; pure (unlinked a v)
  step_take q (unlinked a v) = do unlock q; pure (leaving a v)
  step_take q (leaving a v) = do free a; pure waiting
  step_take q gave_null = pure waiting

module _ {W : Type 0} ⦃vm : Vm W⦄ where
  unfoldable pub step_put : Ptr → Putting → Cmd W Putting
  unfolding lock unlock set_last hang
  step_put q idle = pure idle
  step_put q (called v) = do
    n ← malloc
    store n (node (record { element = v; next = null }))
    pure (filled n v)
  step_put q (filled n v) = do lock q; pure (locked n v)
  step_put q (locked n v) = do hang q n; pure (hung n)
  step_put q (hung n) = do set_last q n; pure linked
  step_put q linked = do unlock q; pure unlocked
  step_put q unlocked = do this ← load as_queue q; signal this.semaphore; pure idle

-- The threads below a bound put; `was_put` and `given` are the elements linked and the elements returned
-- so far, in order.
pub record System (W : Type 0) : Type 0 where
  pub memory : State W
  pub putting : ℕ → Putting
  pub taking : Taking
  pub was_put : List Ptr
  pub given : List Ptr

-- the element that a step links, and the one that a step returns
abbrev pub links : Putting → List Ptr
links (locked n v) = v ∷ []
links _ = []

abbrev pub gives : Taking → List Ptr
gives (leaving a v) = v ∷ []
gives gave_null = null ∷ []
gives _ = []

pub data Step {W : Type 0} ⦃vm : Vm W⦄ (q threads : ℕ) (t : System W) : System W → Type 0 where
  calls :
      (i v : ℕ)
      → i < threads
      → t.putting i ≡ idle
      → Step q threads t (record t { putting = update t.putting i (called v) })
  puts :
      (i : ℕ) {p : Putting} {s : State W}
      → i < threads
      → step_put q (t.putting i) t.memory ≡ ok p s
      → Step q threads t (record t {
        memory = s;
        putting = update t.putting i p;
        was_put = t.was_put ++ links (t.putting i);
      })
  takes :
      {c : Taking} {s : State W}
      → step_take q t.taking t.memory ≡ ok c s
      → Step q threads t (record t { memory = s; taking = c; given = t.given ++ gives t.taking })

pub data Steps {W : Type 0} ⦃vm : Vm W⦄ (q threads : ℕ) (t : System W) : System W → Type 0 where
  start : Steps q threads t t
  later : {u v : System W} → Steps q threads t u → Step q threads u v → Steps q threads t v

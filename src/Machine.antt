-- ===== src/Machine.antt =====
-- What the C code of the plugin runs on: its heap of allocated structures, its static variables,
-- and commands over them. Everything outside the plugin (the virtual machine with its object
-- memory, libffi and the foreign code it calls) is one value of a type `W`, of which this file
-- knows nothing.
pub mod Blocks
pub mod Access
pub mod Results
pub use Blocks.*
use threaded_ffi_plugin.Prelude.{
  ℕ, ◌+◌, ◌-◌, ◌≡◌, Bool, true, false, Option, none, some, List, ◌==◌, if◌then◌else◌,
}

-- `next` is the address that the next `malloc` returns: an address is never given twice. `budget`
-- counts the requests that `malloc` can still grant.
pub record Heap : Type 0 where
  pub next : Ptr
  pub budget : ℕ
  pub block : Ptr → Option Block

pub record State (W : Type 0) : Type 0 where
  pub heap : Heap
  pub world : W
  -- `pthread_self()`
  pub thread : ℕ
  -- the calls of `sem_wait` that a signal handler will interrupt
  pub interrupts : ℕ
  pub errno : ℕ
  -- how many threads `pthread_create` can still start, and the workers that the threads started
  -- so far run, the last one first
  pub thread_budget : ℕ
  pub started : List Ptr
  -- how many mutexes `pthread_mutex_init` can still make
  pub mutex_budget : ℕ
  -- `TsQueue* callbackQueue` of callbacks.c
  pub callback_queue : Ptr
  -- `Worker *mainThreadWorker` of PThreadedPlugin.c
  pub main_thread_worker : Ptr

-- `stop` is a `return` in the middle of a `void` function; `blocked` is a wait that cannot go on in
-- this state; `fault` is undefined behaviour, such as an access to memory that is not allocated.
pub data Run (W A : Type 0) : Type 0 where
  ok : A → State W → Run W A
  stop : State W → Run W A
  blocked : State W → Run W A
  fault : Run W A
  out_of_fuel : Run W A

abbrev pub Cmd : Type 0 → Type 0 → Type 0
Cmd W A = State W → Run W A

abbrev pub pure : {W A : Type 0} → A → Cmd W A
pure = ok

module _ {W A B : Type 0} where
  abbrev pub and_then : Run W A → (A → Cmd W B) → Run W B
  and_then (ok a s) k = k a s
  and_then (stop s) k = stop s
  and_then (blocked s) k = blocked s
  and_then fault k = fault
  and_then out_of_fuel k = out_of_fuel

  infixl 5 ◌>>=◌ ◌>>◌
  abbrev pub ◌>>=◌ : Cmd W A → (A → Cmd W B) → Cmd W B
  m >>= k = λ s. and_then (m s) k

  abbrev pub ◌>>◌ : Cmd W A → Cmd W B → Cmd W B
  m >> n = m >>= λ _. n

module _ {W : Type 0} where
  -- A `void` function seen from its caller: an early `return` is a return.
  abbrev pub returning : Run W (Unit {0}) → Run W (Unit {0})
  returning (stop s) = ok tt s
  returning (ok a s) = ok a s
  returning (blocked s) = blocked s
  returning fault = fault
  returning out_of_fuel = out_of_fuel

  abbrev pub skip : Cmd W (Unit {0})
  skip = ok tt

  abbrev pub leave : {A : Type 0} → Cmd W A
  leave = stop

  abbrev pub write : State W → Ptr → Option Block → State W
  write s p b = record s {
    heap = record (s.heap) { block = λ q. if q == p then b else (s.heap).block q };
  }

  -- The value of a field: to use memory that nothing has written is undefined.
  abbrev pub defined : {A : Type 0} → Option A → Cmd W A
  defined none = λ _. fault
  defined (some a) = ok a

  -- `malloc(n)`: the memory has no contents yet.
  unfoldable pub malloc : Cmd W Ptr
  malloc s =
      if (s.heap).budget == 0
      then ok null s
      else ok (s.heap).next (record s {
        heap = record {
          next = (s.heap).next + 1;
          budget = (s.heap).budget - 1;
          block = λ q. if q == (s.heap).next then some raw else (s.heap).block q;
        };
      })

  -- A local variable with the contents `b`: its memory does not come from `malloc`.
  unfoldable pub local : Block → Cmd W Ptr
  local b s = ok (s.heap).next (record s {
    heap = record {
      next = (s.heap).next + 1;
      budget = (s.heap).budget;
      block = λ q. if q == (s.heap).next then some b else (s.heap).block q;
    };
  })

  -- The contents of the allocated block at `p`, read as the type that `view` accepts.
  unfoldable pub load : {A : Type 0} → (Block → Option A) → Ptr → Cmd W A
  load view p s = if p == null then fault else elim ((s.heap).block p) [
    | none ↦ fault
    | some b ↦ elim (view b) [ none ↦ fault | some a ↦ ok a s ]
  ]

  unfoldable pub store : Ptr → Block → Cmd W (Unit {0})
  store p b s =
      if p == null
      then fault
      else elim ((s.heap).block p) [ none ↦ fault | some _ ↦ ok tt (write s p (some b)) ]

  -- `free(p)`: nothing at `NULL`, and undefined at any other address that is not allocated.
  unfoldable pub free : Ptr → Cmd W (Unit {0})
  free p s =
      if p == null
      then ok tt s
      else elim ((s.heap).block p) [ none ↦ fault | some _ ↦ ok tt (write s p none) ]

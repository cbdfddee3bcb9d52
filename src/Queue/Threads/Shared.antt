-- ===== src/Queue/Threads/Shared.antt =====
-- The memory that the threads at one queue share, and what each write of theirs does to it.
use threaded_ffi_plugin.Prelude.{ℕ, ◌≡◌, ◌≢◌, ap, ◌∙◌, false, Option, none, some, arith}
use threaded_ffi_plugin.Machine.{Ptr, null, Block, TsQueue, sem, State, write}
use threaded_ffi_plugin.Machine.Access.{allocated}
use threaded_ffi_plugin.Semaphores.Wait.{IsPlatform, settled}
use threaded_ffi_plugin.Queue.Cells.{
  Blocks, Cells, head_ptr, has, node_block, Linked, IsHeap, not-has,
}
use threaded_ffi_plugin.Queue.Contents.{update_ne, Linked-update}
use threaded_ffi_plugin.Queue.Steps.{Holds, put, Holds-put}
use threaded_ffi_plugin.Queue.Frames.{IsHeap-write}

-- The queue at `q` has the structure `r`, whose nodes from the first one on are `cells`; its semaphore
-- has the `sem_t` at `h`, which counts `count`.
pub record IsShared {W : Type 0} (q semaphore h : Ptr) (s : State W) (cells : Cells) (r : TsQueue)
    (count : ℕ) : Type 0 where
  pub holds : Holds s q r
  pub front : r.first ≡ head_ptr cells
  pub source : r.semaphore ≡ semaphore
  pub chain : Linked (s.heap).block cells
  pub platform : IsPlatform s semaphore h count
  pub heap : IsHeap s.heap

pub IsPlatform-write :
    {W : Type 0} (s : State W) (semaphore h count p : ℕ) (x : Option Block)
    → IsPlatform s semaphore h count
    → semaphore ≢ p
    → h ≢ p
    → IsPlatform (write s p x) semaphore h count
IsPlatform-write s semaphore h count p x is s_p h_p = record {
  ne_null = is.ne_null;
  handle_ne_null = is.handle_ne_null;
  shape = update_ne (s.heap).block p x semaphore s_p ∙ is.shape;
  counts = update_ne (s.heap).block p x h h_p ∙ is.counts;
}

-- The nodes that are not in the queue stay as they are.
abbrev pub Keeps : Blocks → Cells → Blocks → Type 0
Keeps b cells b' = (m v x : Ptr) → b m ≡ some (node_block v x) → has m cells ≡ false → b' m ≡ b m

module _ {W : Type 0} {q semaphore h : Ptr} {s : State W} {cells : Cells} {r : TsQueue} {count : ℕ}
    (is : IsShared q semaphore h s cells r count) where
  pub queue-IsShared :
      (cells' : Cells) (r' : TsQueue)
      → r'.first ≡ head_ptr cells'
      → r'.semaphore ≡ r.semaphore
      → Linked (s.heap).block cells'
      → IsShared q semaphore h (put s q r') cells' r' count
  queue-IsShared cells' r' front source chain =
      let b = (s.heap).block in
      let here = is.holds.here in
      record {
        holds = Holds-put s q r' is.holds.ne_null;
        front = front;
        source = source ∙ is.source;
        chain = Linked-update b cells' q _ chain (not-has b q cells' chain (λ v n e. cc (here, e)));
        platform =
            IsPlatform-write s semaphore h count q _ is.platform
              (λ j. cc (here, is.platform.shape, ap b j))
              (λ j. cc (here, is.platform.counts, ap b j));
        heap = IsHeap-write s q _ _ is.heap here;
      }

  pub queue-Keeps : (r' : TsQueue) → Keeps (s.heap).block cells (put s q r').heap.block
  queue-Keeps r' m v x e out =
      update_ne (s.heap).block q _ m (λ j. cc (e, is.holds.here, ap (s.heap).block j))

  pub allocated-IsShared : (x : Block) → IsShared q semaphore h (allocated s (some x)) cells r count
  allocated-IsShared x =
      let b = (s.heap).block in
      let n = (s.heap).next in
      let fresh = is.heap.fresh n (omega arith) in
      record {
        holds = record {
          ne_null = is.holds.ne_null;
          here = update_ne b n (some x) q (λ j. cc (fresh, is.holds.here, ap b j)) ∙ is.holds.here;
        };
        front = is.front;
        source = is.source;
        chain =
            Linked-update b cells n _ is.chain
              (not-has b n cells is.chain (λ v m e. cc (fresh, e)));
        platform = record {
          ne_null = is.platform.ne_null;
          handle_ne_null = is.platform.handle_ne_null;
          shape =
              update_ne b n (some x) semaphore (λ j. cc (fresh, is.platform.shape, ap b j))
              ∙ is.platform.shape;
          counts =
              update_ne b n (some x) h (λ j. cc (fresh, is.platform.counts, ap b j))
              ∙ is.platform.counts;
        };
        heap = record {
          next_pos = omega arith;
          fresh = λ p le. update_ne b n (some x) p (omega arith) ∙ is.heap.fresh p (omega arith);
          at_null = update_ne b n (some x) null (omega (arith, is.heap.next_pos)) ∙ is.heap.at_null;
        };
      }

  pub allocated-Keeps : (x : Block) → Keeps (s.heap).block cells (allocated s (some x)).heap.block
  allocated-Keeps x m v y e out =
      update_ne (s.heap).block (s.heap).next (some x) m
        (λ j. cc (e, is.heap.fresh (s.heap).next (omega arith), ap (s.heap).block j))

  -- A node that is not in the queue is given back.
  pub free-IsShared :
      (a v x : Ptr)
      → (s.heap).block a ≡ some (node_block v x)
      → has a cells ≡ false
      → IsShared q semaphore h (write s a none) cells r count
  free-IsShared a v x at out =
      let b = (s.heap).block in
      record {
        holds = record {
          ne_null = is.holds.ne_null;
          here = update_ne b a none q (λ j. cc (at, is.holds.here, ap b j)) ∙ is.holds.here;
        };
        front = is.front;
        source = is.source;
        chain = Linked-update b cells a none is.chain out;
        platform =
            IsPlatform-write s semaphore h count a none is.platform
              (λ j. cc (at, is.platform.shape, ap b j)) (λ j. cc (at, is.platform.counts, ap b j));
        heap = IsHeap-write s a none _ is.heap at;
      }

  -- The semaphore counts `m`.
  pub count-IsShared : (m : ℕ) → IsShared q semaphore h (write s h (some (sem m))) cells r m
  count-IsShared m =
      let b = (s.heap).block in
      let at = is.platform.counts in
      record {
        holds = record {
          ne_null = is.holds.ne_null;
          here = update_ne b h _ q (λ j. cc (at, is.holds.here, ap b j)) ∙ is.holds.here;
        };
        front = is.front;
        source = is.source;
        chain =
            Linked-update b cells h _ is.chain (not-has b h cells is.chain (λ v n e. cc (at, e)));
        platform = record {
          ne_null = is.platform.ne_null;
          handle_ne_null = is.platform.handle_ne_null;
          shape =
              update_ne b h _ semaphore (λ j. cc (at, is.platform.shape, ap b j))
              ∙ is.platform.shape;
          counts = ground arith;
        };
        heap = IsHeap-write s h _ _ is.heap at;
      }

  pub count-Keeps : (m : ℕ) → Keeps (s.heap).block cells (write s h (some (sem m))).heap.block
  count-Keeps m n v x e out =
      update_ne (s.heap).block h _ n (λ j. cc (e, is.platform.counts, ap (s.heap).block j))

  -- Interrupted waits change nothing here.
  pub settled-IsShared : IsShared q semaphore h (settled s) cells r count
  settled-IsShared = record {
    holds = record { ne_null = is.holds.ne_null; here = is.holds.here };
    front = is.front;
    source = is.source;
    chain = is.chain;
    platform = record {
      ne_null = is.platform.ne_null;
      handle_ne_null = is.platform.handle_ne_null;
      shape = is.platform.shape;
      counts = is.platform.counts;
    };
    heap = is.heap;
  }

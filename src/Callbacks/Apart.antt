-- ===== src/Callbacks/Apart.antt =====
-- A put in the queue of pending callbacks and a take from it, seen from a worker whose queue is another one.
use native.Mathlib.Decide.{ℕ_discrete}
use threaded_ffi_plugin.Prelude.{
  ℕ, ◌≡◌, ◌≢◌, sym, ap, ◌∙◌, true, false, none, some, List, [], ◌∷◌, ◌++◌, arith, length,
}
use threaded_ffi_plugin.Machine.{Ptr, null, Block, State}
use threaded_ffi_plugin.Host.{Vm}
use threaded_ffi_plugin.Queue.Cells.{
  Blocks, Cells, head_ptr, last_ptr, last_element, has, node_block, queue_block, Linked,
  Linked-frame, not-has, last-node, IsQueue, IsHeap,
}
use threaded_ffi_plugin.Queue.Contents.{enqueued, linked_last, update, update_ne, IsOther}
use threaded_ffi_plugin.Queue.Take.{dequeued}
use threaded_ffi_plugin.Queue.Frames.{enqueued-other, dequeued-other, IsHeap-appended}
use threaded_ffi_plugin.Queue.Pending.{IsPending, announced, polled-IsPending}
use threaded_ffi_plugin.Worker.Tasks.{Request, IsReady}
use threaded_ffi_plugin.Worker.Serve.{Kept, AreTasks-Kept, IsPlatform-moved}

-- A put changes nothing where no part of the queue stands.
enqueued-apart :
    (b : Blocks) (q semaphore : Ptr) (cells : Cells) (n v r : Ptr)
    → Linked b cells
    → r ≢ q
    → r ≢ n
    → has r cells ≡ false
    → enqueued b q semaphore cells n v r ≡ b r
enqueued-apart b q semaphore [] n v r l r_q r_n out =
    let b' = update b n (some (node_block v null)) in
    update_ne b' q (some (queue_block semaphore ((n, v) ∷ []))) r r_q
    ∙ update_ne b n (some (node_block v null)) r r_n
enqueued-apart b q semaphore (c ∷ cs) n v r l r_q r_n out =
    let (_, _, within) = last-node b c cs l in
    let r_l : r ≢ last_ptr (c ∷ cs) = λ j. cc (within, out, ap (λ z. has z (c ∷ cs)) j) in
    let b' = update b n (some (node_block v null)) in
    update_ne (linked_last b' (c ∷ cs) n) q (some (queue_block semaphore ((c ∷ cs) ++ (n, v) ∷ [])))
      r r_q
    ∙ update_ne b' (last_ptr (c ∷ cs)) (some (node_block (last_element (c ∷ cs)) n)) r r_l
    ∙ update_ne b n (some (node_block v null)) r r_n

-- A node of a list is a node.
pub Linked-node :
    (b : Blocks) (cells : Cells) (p : Ptr)
    → Linked b cells
    → has p cells ≡ true
    → (v m : Ptr) × (b p ≡ some (node_block v m))
Linked-node b [] p l within = absurd cc
Linked-node b ((a, v) ∷ cells) p (e, nn, out, l) within = elim (ℕ_discrete p a) [
  | yes same ↦ (v, head_ptr cells, ap b same ∙ e)
  | no other ↦ Linked-node b cells p l (ground (arith, within))
]

-- The two queues share no node.
abbrev pub AreApart : Cells → Cells → Type 0
AreApart cells pending = (p : Ptr) → has p cells ≡ true → has p pending ≡ false

-- A step that keeps all blocks but the parts of queues, and also the parts of all queues but the
-- pending one.
module _ {W : Type 0} (w q semaphore h pq ps : Ptr) (cells pending : Cells) (rs : List Request)
    (s s' : State W) (apart : AreApart cells pending) (q_pq : q ≢ pq)
    (is : IsQueue (s.heap).block pq ps pending)
    (other : (p : Ptr) (x : Block)
      → (s.heap).block p ≡ some x
      → IsOther (some x)
      → (s'.heap).block p ≡ some x)
    (else_kept : (p : Ptr) (x : Block)
      → (s.heap).block p ≡ some x
      → p ≢ pq
      → has p pending ≡ false
      → (s'.heap).block p ≡ some x) where
  pub apart-Kept : (room : ℕ) → Kept s s' h room room cells
  apart-Kept room = record {
    tasks = λ p x within e. other p _ e tt;
    semaphores = λ p r m platform r_h. (
      m,
      IsPlatform-moved s s' p r m m platform (other p _ platform.shape tt ∙ sym platform.shape)
          (other r _ platform.counts tt),
      omega arith,
    );
  }

  pub apart-IsReady :
      IsHeap s'.heap → IsReady s w q semaphore h cells rs → IsReady s' w q semaphore h cells rs
  apart-IsReady heap ready =
      let queue = ready.channel.is_queue in
      let platform = ready.channel.is_platform in
      let q_out = not-has (s.heap).block q pending is.linked (λ v m e. cc (e, queue.shape)) in
      record {
        ne_null = ready.ne_null;
        this = ready.this;
        shape = other w _ ready.shape tt;
        task_queue = ready.task_queue;
        channel = record {
          is_queue = record {
            ne_null = queue.ne_null;
            shape = else_kept q _ queue.shape q_pq q_out;
            linked =
                Linked-frame (s.heap).block (s'.heap).block cells
                  (λ p within.
                    let (v, m, e) = Linked-node (s.heap).block cells p queue.linked within in
                    else_kept p _ e (λ j. cc (e, is.shape, ap (s.heap).block j)) (apart p within)
                    ∙ sym e)
                  queue.linked;
          };
          is_platform =
              IsPlatform-moved s s' semaphore h (length cells) (length cells) platform
                (other semaphore _ platform.shape tt ∙ sym platform.shape)
                (other h _ platform.counts tt);
          is_heap = heap;
        };
        tasks =
            AreTasks-Kept s s' h (length rs) (length rs) cells rs (apart-Kept (length rs))
              ready.tasks;
      }

module _ {W : Type 0} ⦃vm : Vm W⦄ (w q semaphore h pq ps index i : Ptr) (cells pending : Cells)
    (rs : List Request) (s : State W) (apart : AreApart cells pending) (q_pq : q ≢ pq)
    (is : IsPending s pq ps index pending) where
  abbrev told : State W
  told = announced pq ps index i pending s

  abbrev n : Ptr
  n = (s.heap).next

  fresh : (s.heap).block n ≡ none
  fresh = is.is_heap.fresh n (omega arith)

  pub told-other :
      (p : Ptr) (x : Block)
      → (s.heap).block p ≡ some x
      → IsOther (some x)
      → (told.heap).block p ≡ some x
  told-other p x e o = enqueued-other (s.heap).block pq ps pending n i p x is.is_queue fresh e o

  told-else :
      (p : Ptr) (x : Block)
      → (s.heap).block p ≡ some x
      → p ≢ pq
      → has p pending ≡ false
      → (told.heap).block p ≡ some x
  told-else p x e p_pq out =
      enqueued-apart (s.heap).block pq ps pending n i p is.is_queue.linked p_pq
        (λ j. cc (e, fresh, ap (s.heap).block j)) out
      ∙ e

  pub told-Kept : (room : ℕ) → Kept s told h room room cells
  told-Kept =
      apart-Kept w q semaphore h pq ps cells pending rs s told apart q_pq is.is_queue told-other
        told-else

  pub told-IsReady : IsReady s w q semaphore h cells rs → IsReady told w q semaphore h cells rs
  told-IsReady =
      apart-IsReady w q semaphore h pq ps cells pending rs s told apart q_pq is.is_queue told-other
        told-else (IsHeap-appended s pq ps i pending is.is_queue is.is_heap)

-- A take of the oldest pending invocation, too.
module _ {W : Type 0} (w q semaphore h pq ps index a i : Ptr) (cells rest : Cells)
    (rs : List Request) (s : State W) (apart : AreApart cells ((a, i) ∷ rest)) (q_pq : q ≢ pq)
    (is : IsPending s pq ps index ((a, i) ∷ rest)) where
  abbrev read : State W
  read = dequeued s pq ps a rest

  pub read-other :
      (p : Ptr) (x : Block)
      → (s.heap).block p ≡ some x
      → IsOther (some x)
      → (read.heap).block p ≡ some x
  read-other p x e o = dequeued-other (s.heap).block pq ps a i rest p x is.is_queue e o

  read-else :
      (p : Ptr) (x : Block)
      → (s.heap).block p ≡ some x
      → p ≢ pq
      → has p ((a, i) ∷ rest) ≡ false
      → (read.heap).block p ≡ some x
  read-else p x e p_pq out = ground (arith, e, p_pq)

  pub read-Kept : (room : ℕ) → Kept s read h room room cells
  read-Kept =
      apart-Kept w q semaphore h pq ps cells ((a, i) ∷ rest) rs s read apart q_pq is.is_queue
        read-other read-else

  pub read-IsReady : IsReady s w q semaphore h cells rs → IsReady read w q semaphore h cells rs
  read-IsReady =
      apart-IsReady w q semaphore h pq ps cells ((a, i) ∷ rest) rs s read apart q_pq is.is_queue
        read-other read-else (polled-IsPending pq ps index s a i rest is).is_heap

-- ===== src/Queue/Threads/Moves.antt =====
-- How a step of a thread that puts keeps what is true of all threads.
use mathlib.Core.List.{append_assoc}
use threaded_ffi_plugin.Prelude.{
  ℕ, ◌+◌, ◌≤◌, ◌<◌, ◌≡◌, ◌≢◌, sym, ap, ◌∙◌, List, ◌∷◌, ◌++◌, length, arith,
}
use threaded_ffi_plugin.Machine.{Ptr, TsQueue, State}
use threaded_ffi_plugin.Queue.Cells.{Cells, elements}
use threaded_ffi_plugin.Queue.Threads.{Putting, System, links}
use threaded_ffi_plugin.Queue.Threads.Family.{update, total-update}
use threaded_ffi_plugin.Queue.Threads.Shared.{IsShared}
use threaded_ffi_plugin.Queue.Threads.Invariant.{
  Owner, putter, hanging, taker, is_held, Whose, of_thread, of_taker, IsTail, PutFact, Owned, owes,
  spares, in_flight, IsSound, Stays, PutFact-frame, TakeFact-frame, PutFact-update,
}

-- What is put behind a concatenation is put behind its last part.
append-behind :
    {A : Type 0} (xs ys zs l : List A) → (xs ++ (ys ++ zs)) ++ l ≡ xs ++ (ys ++ (zs ++ l))
append-behind xs ys zs l = append_assoc xs (ys ++ zs) l ∙ ap (λ z. xs ++ z) (append_assoc ys zs l)

module _ {W : Type 0} (q semaphore h threads : ℕ) (t : System W)
    (is : IsSound q semaphore h threads t) (i : ℕ) where
  abbrev pub after_put : Putting → State W → System W
  after_put p s = record t {
    memory = s;
    putting = update t.putting i p;
    was_put = t.was_put ++ links (t.putting i);
  }

  -- What the step of thread `i` to `p` does to the memory and to what is known of it.
  pub record Moved (p : Putting) (s : State W) : Type 0 where
    pub cells : Cells
    pub owner : Owner
    pub whose : Ptr → Whose
    pub r : TsQueue
    pub count : ℕ
    pub shared : IsShared q semaphore h s cells r count
    pub held : r.mutex ≡ is_held owner
    pub tail : IsTail owner r cells
    pub fact : PutFact (s.heap).block cells owner whose i p
    pub stays :
        (me : Whose)
        → me ≢ of_thread i
        → Stays (t.memory.heap).block (s.heap).block is.cells cells is.whose whose me
    pub puts : (j : ℕ) → j ≢ i → is.owner ≡ putter j → owner ≡ putter j
    pub hangs : (j : ℕ) → j ≢ i → (n : Ptr) → is.owner ≡ hanging j n → owner ≡ hanging j n
    pub takes : is.owner ≡ taker → owner ≡ taker
    pub grows :
        (d : Ptr × Ptr) (rest : Cells) → is.cells ≡ d ∷ rest → (rest' : Cells) × (cells ≡ d ∷ rest')
    pub counted : count + owes p + length is.cells ≡ is.count + owes (t.putting i) + length cells
    pub room :
        (s.heap).budget + spares p + length cells
        ≤ (t.memory.heap).budget + spares (t.putting i) + length is.cells
    pub owned : Owned threads owner (update t.putting i p) t.taking
    pub fifo : elements cells ≡ elements is.cells ++ links (t.putting i)

  pub moved :
      (p : Putting) (s : State W)
      → i < threads
      → Moved p s
      → IsSound q semaphore h threads (after_put p s)
  moved p s lt m = record {
    cells = m.cells;
    owner = m.owner;
    whose = m.whose;
    r = m.r;
    count = m.count;
    shared = m.shared;
    held = m.held;
    tail = m.tail;
    putting =
        PutFact-update (s.heap).block m.cells m.owner m.whose t.putting i p m.fact (λ j differ.
          PutFact-frame (t.memory.heap).block (s.heap).block is.cells m.cells is.owner m.owner
            is.whose m.whose j (t.putting j) (m.stays (of_thread j) (λ e. differ cc))
            (m.puts j differ) (m.hangs j differ) (is.putting j));
    taking =
        TakeFact-frame (t.memory.heap).block (s.heap).block is.cells m.cells is.owner m.owner
          is.whose m.whose t.taking (m.stays of_taker (λ e. cc)) m.takes m.grows is.taking;
    counted = omega (arith, is.counted, m.counted, total-update owes t.putting i p threads lt);
    room = omega (arith, is.room, m.room, total-update spares t.putting i p threads lt);
    owned = m.owned;
    fifo =
        ap (λ z. z ++ links (t.putting i)) is.fifo
        ∙ append-behind t.given (in_flight t.taking) (elements is.cells) (links (t.putting i))
        ∙ ap (λ z. t.given ++ (in_flight t.taking ++ z)) (sym m.fifo);
  }

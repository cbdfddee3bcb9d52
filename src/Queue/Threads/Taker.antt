-- ===== src/Queue/Threads/Taker.antt =====
-- What a step of the thread that takes must keep.
use mathlib.Core.List.{append_assoc}
use mathlib.Core.Path.{subst}
use threaded_ffi_plugin.Prelude.{
  ℕ, ◌+◌, ◌≤◌, ◌≡◌, refl, sym, ap, ◌∙◌, true, [], ◌++◌, length, arith,
}
use threaded_ffi_plugin.Machine.{Ptr, TsQueue, State, ok, blocked}
use threaded_ffi_plugin.Semaphores.Wait.{settled}
use threaded_ffi_plugin.Queue.Cells.{Cells, elements}
use threaded_ffi_plugin.Queue.Steps.{put}
use threaded_ffi_plugin.Queue.Threads.{Taking, waiting, System, gives, step_take}
use threaded_ffi_plugin.Queue.Threads.Shared.{IsShared, queue-IsShared, queue-Keeps}
use threaded_ffi_plugin.Queue.Threads.Invariant.{
  TakesIn, Owned, Owned-take, Owner, nobody, putter, hanging, taker, is_held, Whose, of_thread,
  IsTail, TakeFact, claims, in_flight, IsSound, Stays, PutFact-frame,
}
use threaded_ffi_plugin.Queue.Threads.Puts.{Stays-Keeps}

-- No thread that puts holds the mutex.
abbrev pub NoPutter : Owner → Type 0
NoPutter nobody = Unit {0}
NoPutter taker = Unit {0}
NoPutter _ = ⊥

module _ {W : Type 0} (q semaphore h threads : ℕ) (t : System W)
    (is : IsSound q semaphore h threads t) where
  abbrev s : State W
  s = t.memory

  abbrev pub after_take : Taking → State W → System W
  after_take c s' = record t { memory = s'; taking = c; given = t.given ++ gives t.taking }

  -- The step runs and keeps what is true, or waits for an element, or for the mutex.
  pub data Outcome : Taking → Type 0 where
    runs :
        {c0 : Taking} (c : Taking) (s' : State W)
        → step_take q c0 s ≡ ok c s'
        → IsSound q semaphore h threads (after_take c s')
        → Outcome c0
    awaits :
        {c0 : Taking}
        → c0 ≡ waiting
        → is.count ≡ 0
        → step_take q c0 s ≡ blocked (settled s)
        → Outcome c0
    waits :
        {c0 : Taking}
        → claims c0 ≡ 1
        → ¬ TakesIn c0
        → is.r.mutex ≡ true
        → step_take q c0 s ≡ blocked s
        → Outcome c0

  pub record Moved (c : Taking) (s' : State W) : Type 0 where
    pub cells : Cells
    pub owner : Owner
    pub whose : Ptr → Whose
    pub r : TsQueue
    pub count : ℕ
    pub shared : IsShared q semaphore h s' cells r count
    pub held : r.mutex ≡ is_held owner
    pub tail : IsTail owner r cells
    pub fact : TakeFact (s'.heap).block cells owner whose c
    pub stays :
        (j : ℕ) → Stays (s.heap).block (s'.heap).block is.cells cells is.whose whose (of_thread j)
    pub puts : (j : ℕ) → is.owner ≡ putter j → owner ≡ putter j
    pub hangs : (j : ℕ) (n : Ptr) → is.owner ≡ hanging j n → owner ≡ hanging j n
    pub counted : count + claims c + length is.cells ≡ is.count + claims t.taking + length cells
    pub room : (s'.heap).budget + length cells ≤ (s.heap).budget + length is.cells
    pub owned : Owned threads owner t.putting c
    pub fifo :
        in_flight t.taking ++ elements is.cells ≡ gives t.taking ++ (in_flight c ++ elements cells)

  moved : (c : Taking) (s' : State W) → Moved c s' → IsSound q semaphore h threads (after_take c s')
  moved c s' m = record {
    cells = m.cells;
    owner = m.owner;
    whose = m.whose;
    r = m.r;
    count = m.count;
    shared = m.shared;
    held = m.held;
    tail = m.tail;
    putting = λ j.
        PutFact-frame (s.heap).block (s'.heap).block is.cells m.cells is.owner m.owner is.whose
          m.whose j (t.putting j) (m.stays j) (m.puts j) (m.hangs j) (is.putting j);
    taking = m.fact;
    counted = omega (arith, is.counted, m.counted);
    room = omega (arith, is.room, m.room);
    owned = m.owned;
    fifo =
        is.fifo
        ∙ ap (λ z. t.given ++ z) m.fifo
        ∙ sym (append_assoc t.given (gives t.taking) (in_flight c ++ elements m.cells));
  }

  pub goes :
      {c0 : Taking} (c : Taking) (s' : State W)
      → step_take q c0 s ≡ ok c s'
      → Moved c s'
      → Outcome c0
  goes c s' e m = runs c s' e (moved c s' m)

  pub fact_of : (c : Taking) → t.taking ≡ c → TakeFact (s.heap).block is.cells is.owner is.whose c
  fact_of c e = subst (TakeFact (s.heap).block is.cells is.owner is.whose) e is.taking

  -- A step that only reads.
  pub reads :
      (c : Taking)
      → TakeFact (s.heap).block is.cells is.owner is.whose c
      → claims c ≡ claims t.taking
      → gives t.taking ≡ []
      → in_flight t.taking ≡ []
      → in_flight c ≡ []
      → ¬ TakesIn t.taking
      → Moved c s
  reads c fact same no_gift none_before none_after outside = record {
    cells = is.cells;
    owner = is.owner;
    whose = is.whose;
    r = is.r;
    count = is.count;
    shared = is.shared;
    held = is.held;
    tail = is.tail;
    fact = fact;
    stays = λ j. Stays-Keeps (λ m v x e out. refl) (of_thread j);
    puts = λ j o. o;
    hangs = λ j m o. o;
    counted = omega (arith, same);
    room = omega arith;
    owned = Owned-take threads is.owner t.putting t.taking c outside is.owned;
    fifo = rw (no_gift, none_before, none_after) refl;
  }

  -- A step that writes the structure of the queue, while no thread that puts holds the mutex.
  pub rewrites :
      (c : Taking) (r' : TsQueue) (owner : Owner)
      → NoPutter is.owner
      → r'.first ≡ is.r.first
      → r'.semaphore ≡ is.r.semaphore
      → r'.mutex ≡ is_held owner
      → IsTail owner r' is.cells
      → TakeFact (put s q r').heap.block is.cells owner is.whose c
      → claims c ≡ claims t.taking
      → in_flight t.taking ≡ in_flight c
      → gives t.taking ≡ []
      → Owned threads owner t.putting c
      → Moved c (put s q r')
  rewrites c r' owner free first source held tail fact same flight no_gift owned = record {
    cells = is.cells;
    owner = owner;
    whose = is.whose;
    r = r';
    count = is.count;
    shared = queue-IsShared is.shared is.cells r' (first ∙ is.shared.front) source is.shared.chain;
    held = held;
    tail = tail;
    fact = fact;
    stays = λ j. Stays-Keeps (queue-Keeps is.shared r') (of_thread j);
    puts = λ j o. absurd (subst NoPutter o free);
    hangs = λ j n o. absurd (subst NoPutter o free);
    counted = omega (arith, same);
    room = omega arith;
    owned = owned;
    fifo = rw (no_gift, flight) refl;
  }

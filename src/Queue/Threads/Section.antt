-- ===== src/Queue/Threads/Section.antt =====
-- The steps of `threadsafe_queue_put` at its critical section, and its signal.
use mathlib.Core.List.{append-nil}
use mathlib.Core.Path.{subst}
use threaded_ffi_plugin.Prelude.{
  ℕ, ◌+◌, ◌<◌, ◌≡◌, ◌≢◌, refl, sym, ap, ◌∙◌, true, false, some, [], ◌∷◌, ◌++◌, Bool-cases, inl, inr,
  length-append, arith,
}
use threaded_ffi_plugin.Machine.{Ptr, null, TsQueue, State, sem, write}
use threaded_ffi_plugin.Host.{Vm}
use threaded_ffi_plugin.Semaphores.{sem_value_max}
use threaded_ffi_plugin.Semaphores.Wait.{signal-platform}
use threaded_ffi_plugin.Queue.Cells.{Cells, elements, last_ptr-append, has-append, elements-append}
use threaded_ffi_plugin.Queue.Steps.{put, load-queue, lock-ok, unlock-ok, set_last-ok}
use threaded_ffi_plugin.Queue.Threads.{
  Putting, idle, called, filled, locked, hung, linked, unlocked, System, links, step_put,
}
use threaded_ffi_plugin.Queue.Threads.Family.{update, weight-le_total}
use threaded_ffi_plugin.Queue.Threads.Shared.{
  queue-IsShared, queue-Keeps, count-IsShared, count-Keeps,
}
use threaded_ffi_plugin.Queue.Threads.Links.{hang-ok}
use threaded_ffi_plugin.Queue.Threads.Invariant.{
  Owned, Owned-update, InSection-update, Owner, nobody, putter, hanging, taker, is_held, IsTail,
  PutFact, owes, spares, IsSound,
}
use threaded_ffi_plugin.Queue.Threads.Moves.{Moved}
use threaded_ffi_plugin.Queue.Threads.Puts.{
  outside_of, nobody-holds, lock-blocked, Stays-Keeps, Outcome, waits, goes, idle-Outcome,
  called-Outcome,
}

-- No thread but `i` holds the mutex.
abbrev Alone : ℕ → Owner → Type 0
Alone i nobody = Unit {0}
Alone i (putter j) = j ≡ i
Alone i (hanging j n) = j ≡ i
Alone i taker = ⊥

append-grows :
    (cells extra : Cells) (d : Ptr × Ptr) (rest : Cells)
    → cells ≡ d ∷ rest
    → (rest' : Cells) × (cells ++ extra ≡ d ∷ rest')
append-grows cells extra d rest e = (rest ++ extra, ap (λ z. z ++ extra) e)

module _ {W : Type 0} ⦃vm : Vm W⦄ (q semaphore h threads : ℕ) (t : System W)
    (is : IsSound q semaphore h threads t) (i : ℕ) (lt : i < threads) where
  abbrev s : State W
  s = t.memory

  abbrev Result : Putting → Type 0
  Result = Outcome q semaphore h threads t is i lt

  -- A step that writes the structure of the queue, and hands the mutex on.
  rewrites :
      (p : Putting) (r' : TsQueue) (owner : Owner)
      → Alone i is.owner
      → r'.first ≡ is.r.first
      → r'.semaphore ≡ is.r.semaphore
      → r'.mutex ≡ is_held owner
      → IsTail owner r' is.cells
      → PutFact (put s q r').heap.block is.cells owner is.whose i p
      → owes p ≡ owes (t.putting i)
      → spares p ≡ spares (t.putting i)
      → links (t.putting i) ≡ []
      → Owned threads owner (update t.putting i p) t.taking
      → Moved q semaphore h threads t is i p (put s q r')
  rewrites p r' owner alone first source held tail fact same_owes same_spares no_links owned =
      record {
        cells = is.cells;
        owner = owner;
        whose = is.whose;
        r = r';
        count = is.count;
        shared =
            queue-IsShared is.shared is.cells r' (first ∙ is.shared.front) source is.shared.chain;
        held = held;
        tail = tail;
        fact = fact;
        stays = λ me differ. Stays-Keeps (queue-Keeps is.shared r') me;
        puts = λ j differ o. absurd (differ (subst (Alone i) o alone));
        hangs = λ j differ n o. absurd (differ (subst (Alone i) o alone));
        takes = λ o. absurd (subst (Alone i) o alone);
        grows = λ d rest g. (rest, g);
        counted = omega (arith, same_owes);
        room = omega (arith, same_spares);
        owned = owned;
        fifo = rw no_links (sym (append-nil (elements is.cells)));
      }

  fact_of : (p : Putting) → t.putting i ≡ p → PutFact (s.heap).block is.cells is.owner is.whose i p
  fact_of p e = subst (PutFact (s.heap).block is.cells is.owner is.whose i) e (is.putting i)

  IsTail-owner : (o : Owner) → is.owner ≡ o → IsTail o is.r is.cells
  IsTail-owner o e = subst (λ z. IsTail z is.r is.cells) e is.tail

  filled-Outcome : (n v : Ptr) → t.putting i ≡ filled n v → Result (filled n v)
  unfolding step_put
  filled-Outcome n v e = elim (Bool-cases is.r.mutex) [
    | inl busy ↦ waits (λ a. a) busy (rw (lock-blocked is.shared.holds busy) refl)
    | inr free ↦
        let own = nobody-holds is.owner (sym is.held ∙ free) in
        let r' : TsQueue = record (is.r) { mutex = true } in
        let private = fact_of (filled n v) e in
        goes q semaphore h threads t is i lt (locked n v) (put s q r')
          (rw (lock-ok is.shared.holds free) refl)
          (rewrites (locked n v) r' (putter i) (subst (Alone i) (sym own) tt) refl refl refl
            (IsTail-owner nobody own)
            (
              record {
                real = private.real;
                here = queue-Keeps is.shared r' n v null private.here private.out ∙ private.here;
                out = private.out;
                mine = private.mine;
              },
              refl,
            )
            (ap owes (sym e)) (ap spares (sym e)) (ap links e)
            (lt, InSection-update t.putting i (locked n v) tt))
  ]

  hung-Outcome : (n : Ptr) → t.putting i ≡ hung n → Result (hung n)
  unfolding step_put
  hung-Outcome n e =
      let own = fact_of (hung n) e in
      let r' : TsQueue = record (is.r) { last = n } in
      goes q semaphore h threads t is i lt linked (put s q r')
        (rw (set_last-ok is.shared.holds n) refl)
        (rewrites linked r' (putter i) (subst (Alone i) (sym own) refl) refl refl
          (is.held ∙ ap is_held own) (sym (IsTail-owner (hanging i n) own)) refl (ap owes (sym e))
          (ap spares (sym e)) (ap links e) (lt, InSection-update t.putting i linked tt))

  linked-Outcome : t.putting i ≡ linked → Result linked
  unfolding step_put
  linked-Outcome e =
      let own = fact_of linked e in
      let r' : TsQueue = record (is.r) { mutex = false } in
      goes q semaphore h threads t is i lt unlocked (put s q r')
        (rw (unlock-ok is.shared.holds) refl)
        (rewrites unlocked r' nobody (subst (Alone i) (sym own) refl) refl refl refl
          (IsTail-owner (putter i) own) tt (ap owes (sym e)) (ap spares (sym e)) (ap links e) tt)

  locked-Outcome : (n v : Ptr) → t.putting i ≡ locked n v → Result (locked n v)
  unfolding step_put
  locked-Outcome n v e =
      let (private, own) = fact_of (locked n v) e in
      let (s', r', hungs) =
        hang-ok q semaphore h s is.r is.count is.cells n v is.shared (IsTail-owner (putter i) own)
          private.real private.here private.out in
      goes q semaphore h threads t is i lt (hung n) s' (rw hungs.runs refl) (record {
        cells = is.cells ++ (n, v) ∷ [];
        owner = hanging i n;
        whose = is.whose;
        r = r';
        count = is.count;
        shared = hungs.shared;
        held = hungs.mutex ∙ is.held ∙ ap is_held own;
        tail = last_ptr-append is.cells n v;
        fact = refl;
        stays = λ me differ m w x other.
            let m_n : m ≢ n = λ j. differ (cc (other.mine, private.mine, ap is.whose j)) in
            (
              hungs.keeps m w x other.here other.out,
              has-append m is.cells n v ∙ ground (arith, other.out, m_n),
              other.mine,
            );
        puts = λ j differ o. absurd (differ cc);
        hangs = λ j differ m o. absurd cc;
        takes = λ o. absurd cc;
        grows = append-grows is.cells ((n, v) ∷ []);
        counted = rw e (omega (arith, length-append is.cells ((n, v) ∷ [])));
        room = rw e (omega (arith, hungs.budget, length-append is.cells ((n, v) ∷ [])));
        owned = (lt, InSection-update t.putting i (hung n) tt);
        fifo = rw e (elements-append is.cells n v);
      })

  -- The semaphore has room: each element has one unit at most.
  unlocked-Outcome : t.putting i ≡ unlocked → Result unlocked
  unfolding step_put
  unlocked-Outcome e =
      let one : owes (t.putting i) ≡ 1 = ap owes e in
      let small : is.count < sem_value_max =
        omega (arith, is.counted, is.room, one, weight-le_total owes t.putting i threads lt) in
      let source : is.r.semaphore ≡ semaphore = is.shared.source in
      goes q semaphore h threads t is i lt idle (write s h (some (sem (is.count + 1))))
        (rw
          (
            load-queue is.shared.holds,
            source,
            signal-platform semaphore h is.count s is.shared.platform small,
          )
          refl)
        (record {
          cells = is.cells;
          owner = is.owner;
          whose = is.whose;
          r = is.r;
          count = is.count + 1;
          shared = count-IsShared is.shared (is.count + 1);
          held = is.held;
          tail = is.tail;
          fact = tt;
          stays = λ me differ. Stays-Keeps (count-Keeps is.shared (is.count + 1)) me;
          puts = λ j differ o. o;
          hangs = λ j differ n o. o;
          takes = λ o. o;
          grows = λ d rest g. (rest, g);
          counted = rw e (omega arith);
          room = rw e (omega arith);
          owned =
              Owned-update threads is.owner t.putting t.taking i _
                (outside_of q semaphore h threads t is i lt _ e (λ a. a)) is.owned;
          fifo = rw e (sym (append-nil (elements is.cells)));
        })

  -- Each step of a thread that puts runs, or waits for the mutex, or has no memory.
  pub put-Outcome : (p : Putting) → t.putting i ≡ p → Result p
  put-Outcome idle e = idle-Outcome q semaphore h threads t is i lt e
  put-Outcome (called v) e = called-Outcome q semaphore h threads t is i lt v e
  put-Outcome (filled n v) e = filled-Outcome n v e
  put-Outcome (locked n v) e = locked-Outcome n v e
  put-Outcome (hung n) e = hung-Outcome n e
  put-Outcome linked e = linked-Outcome e
  put-Outcome unlocked e = unlocked-Outcome e

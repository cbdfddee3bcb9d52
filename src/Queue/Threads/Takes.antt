-- ===== src/Queue/Threads/Takes.antt =====
-- The steps of `threadsafe_queue_take` among the threads that put.
use mathlib.Core.Path.{subst}
use native.Mathlib.Decide.{ℕ_discrete}
use threaded_ffi_plugin.Prelude.{
  ℕ, suc, ◌-◌, ◌<◌, ◌≡◌, refl, sym, ap, ◌∙◌, true, false, none, some, [], ◌∷◌, ◌==◌, if◌then◌else◌,
  Bool-cases, inl, inr, length, eq-false, arith,
}
use threaded_ffi_plugin.Machine.{Ptr, null, TsQueue, TsQueueNode, State, node, sem, write, as_node}
use threaded_ffi_plugin.Machine.Access.{load-ok, free-ok}
use threaded_ffi_plugin.Semaphores.Wait.{IsPlatform, settled, wait-suc, wait-zero}
use threaded_ffi_plugin.Queue.Cells.{Cells, head_ptr, last_ptr, has, node_block, Linked}
use threaded_ffi_plugin.Queue.Contents.{update_ne}
use threaded_ffi_plugin.Queue.Steps.{put, load-queue, lock-ok, unlock-ok}
use threaded_ffi_plugin.Queue.Threads.{
  Taking, waiting, woken, found, seen, holding, unlinked, leaving, gave_null, System, gives,
  step_take,
}
use threaded_ffi_plugin.Queue.Threads.Shared.{
  IsShared, queue-IsShared, queue-Keeps, count-IsShared, count-Keeps, settled-IsShared,
  free-IsShared,
}
use threaded_ffi_plugin.Queue.Threads.Links.{shifted, unlink-ok}
use threaded_ffi_plugin.Queue.Threads.Invariant.{
  TakesIn, Owned-take, nobody, taker, is_held, of_thread, of_taker, IsTail, claims, in_flight,
  IsSound,
}
use threaded_ffi_plugin.Queue.Threads.Puts.{nobody-holds, lock-blocked, Stays-Keeps}
use threaded_ffi_plugin.Queue.Threads.Taker.{
  NoPutter, Outcome, awaits, waits, goes, fact_of, reads, rewrites,
}

nonempty :
    (cells : Cells) → 0 < length cells → (a v : Ptr) × (rest : Cells) × (cells ≡ (a, v) ∷ rest)
nonempty [] lt = absurd (omega (arith, lt))
nonempty ((a, v) ∷ rest) lt = (a, v, rest, refl)

module _ {W : Type 0} (q semaphore h threads : ℕ) (t : System W)
    (is : IsSound q semaphore h threads t) where
  abbrev s : State W
  s = t.memory

  abbrev Result : Taking → Type 0
  Result = Outcome q semaphore h threads t is

  waiting-Outcome : t.taking ≡ waiting → Result waiting
  unfolding step_take
  waiting-Outcome e = elim (ℕ_discrete is.count 0) [
    | yes zero_units ↦ awaits refl zero_units (
        rw
          (
            load-queue is.shared.holds,
            is.shared.source,
            wait-zero semaphore h s
                (subst (IsPlatform s semaphore h) zero_units is.shared.platform),
          )
          refl)
    | no some_units ↦
        let n = is.count - 1 in
        let more : is.count ≡ suc n = omega (arith, some_units) in
        let shared' = settled-IsShared is.shared in
        goes q semaphore h threads t is woken (write (settled s) h (some (sem n)))
          (rw
            (
              load-queue is.shared.holds,
              is.shared.source,
              wait-suc semaphore h n s (subst (IsPlatform s semaphore h) more is.shared.platform),
            )
            refl)
          (record {
            cells = is.cells;
            owner = is.owner;
            whose = is.whose;
            r = is.r;
            count = n;
            shared = count-IsShared shared' n;
            held = is.held;
            tail = is.tail;
            fact = tt;
            stays = λ j. Stays-Keeps (count-Keeps shared' n) (of_thread j);
            puts = λ j o. o;
            hangs = λ j m o. o;
            counted = rw e (omega (arith, some_units));
            room = omega arith;
            owned =
                Owned-take threads is.owner t.putting t.taking _ (λ a. subst TakesIn e a) is.owned;
            fifo = rw e refl;
          })
  ]

  woken-Outcome : t.taking ≡ woken → Result woken
  unfolding step_take
  woken-Outcome e =
      let one : claims t.taking ≡ 1 = ap claims e in
      let (a, v, rest, cons) = nonempty is.cells (omega (arith, is.counted, one)) in
      let chain = subst (Linked (s.heap).block) cons is.shared.chain in
      let first : is.r.first ≡ a = is.shared.front ∙ ap head_ptr cons in
      goes q semaphore h threads t is (found a) s
        (rw (load-queue is.shared.holds, first, eq-false a null chain.1) refl)
        (reads q semaphore h threads t is (found a) (v, rest, cons) (ap claims (sym e)) (ap gives e)
          (ap in_flight e) refl (λ a. subst TakesIn e a))

  found-Outcome : (a : Ptr) → t.taking ≡ found a → Result (found a)
  unfolding step_take
  found-Outcome a e =
      let (v, rest, cons) = fact_of q semaphore h threads t is (found a) e in
      let chain = subst (Linked (s.heap).block) cons is.shared.chain in
      let m : TsQueueNode = record { element = v; next = head_ptr rest } in
      goes q semaphore h threads t is (seen a v) s
        (rw (load-ok s a (node m) chain.1 chain.0 as_node m refl) refl)
        (reads q semaphore h threads t is (seen a v) (rest, cons) (ap claims (sym e)) (ap gives e)
          (ap in_flight e) refl (λ a. subst TakesIn e a))

  seen-Outcome : (a v : Ptr) → t.taking ≡ seen a v → Result (seen a v)
  unfolding step_take
  seen-Outcome a v e = elim (Bool-cases is.r.mutex) [
    | inl busy ↦ waits refl (λ a. a) busy (rw (lock-blocked is.shared.holds busy) refl)
    | inr free ↦
        let own = nobody-holds is.owner (sym is.held ∙ free) in
        let r' : TsQueue = record (is.r) { mutex = true } in
        let (rest, cons) = fact_of q semaphore h threads t is (seen a v) e in
        goes q semaphore h threads t is (holding a v) (put s q r')
          (rw (lock-ok is.shared.holds free) refl)
          (rewrites q semaphore h threads t is (holding a v) r' taker (subst NoPutter (sym own) tt)
            refl refl refl (subst (λ o. IsTail o is.r is.cells) own is.tail) (rest, cons, refl)
            (ap claims (sym e)) (ap in_flight e) (ap gives e) tt)
  ]

  holding-Outcome : (a v : Ptr) → t.taking ≡ holding a v → Result (holding a v)
  unfolding step_take
  holding-Outcome a v e =
      let b = (s.heap).block in
      let (rest, cons, own) = fact_of q semaphore h threads t is (holding a v) e in
      let shared = subst (λ z. IsShared q semaphore h s z is.r is.count) cons is.shared in
      let tail =
        subst (λ z. is.r.last ≡ last_ptr z) cons
          (subst (λ o. IsTail o is.r is.cells) own is.tail) in
      let chain = shared.chain in
      let r' : TsQueue = shifted is.r rest in
      goes q semaphore h threads t is (unlinked a v) (put s q r')
        (rw (unlink-ok q semaphore h s is.r is.count a v rest shared tail) refl)
        (record {
          cells = rest;
          owner = taker;
          whose = λ p. if p == a then of_taker else is.whose p;
          r = r';
          count = is.count;
          shared = queue-IsShared shared rest r' refl refl chain.3;
          held = is.held ∙ ap is_held own;
          tail = refl;
          fact = (
            (
              head_ptr rest,
              record {
                real = chain.1;
                here =
                    update_ne b q _ a (λ j. cc (chain.0, is.shared.holds.here, ap b j)) ∙ chain.0;
                out = chain.2;
                mine = ground arith;
              },
            ),
            refl,
          );
          stays = λ j m w x is_own.
              let out : has m ((a, v) ∷ rest) ≡ false = ap (has m) (sym cons) ∙ is_own.out in
              (
                queue-Keeps is.shared r' m w x is_own.here is_own.out,
                ground (arith, out),
                ground (arith, out, is_own.mine),
              );
          puts = λ j o. absurd (subst NoPutter (sym own ∙ o) tt);
          hangs = λ j n o. absurd (subst NoPutter (sym own ∙ o) tt);
          counted = rw (e, cons) (omega arith);
          room = rw cons (omega arith);
          owned = tt;
          fifo = rw (e, cons) refl;
        })

  unlinked-Outcome : (a v : Ptr) → t.taking ≡ unlinked a v → Result (unlinked a v)
  unfolding step_take
  unlinked-Outcome a v e =
      let ((x, gone), own) = fact_of q semaphore h threads t is (unlinked a v) e in
      let r' : TsQueue = record (is.r) { mutex = false } in
      goes q semaphore h threads t is (leaving a v) (put s q r')
        (rw (unlock-ok is.shared.holds) refl)
        (rewrites q semaphore h threads t is (leaving a v) r' nobody (subst NoPutter (sym own) tt)
          refl refl refl (subst (λ o. IsTail o is.r is.cells) own is.tail)
          (
            x,
            record {
              real = gone.real;
              here = queue-Keeps is.shared r' a v x gone.here gone.out ∙ gone.here;
              out = gone.out;
              mine = gone.mine;
            },
          )
          (ap claims (sym e)) (ap in_flight e) (ap gives e) tt)

  leaving-Outcome : (a v : Ptr) → t.taking ≡ leaving a v → Result (leaving a v)
  unfolding step_take
  leaving-Outcome a v e =
      let b = (s.heap).block in
      let (x, gone) = fact_of q semaphore h threads t is (leaving a v) e in
      goes q semaphore h threads t is waiting (write s a none)
        (rw (free-ok s a (node_block v x) gone.real gone.here) refl)
        (record {
          cells = is.cells;
          owner = is.owner;
          whose = is.whose;
          r = is.r;
          count = is.count;
          shared = free-IsShared is.shared a v x gone.here gone.out;
          held = is.held;
          tail = is.tail;
          fact = tt;
          stays = λ j m w y own. (update_ne b a none m (λ k. absurd cc), own.out, own.mine);
          puts = λ j o. o;
          hangs = λ j n o. o;
          counted = rw e (omega arith);
          room = omega arith;
          owned =
              Owned-take threads is.owner t.putting t.taking _ (λ a. subst TakesIn e a) is.owned;
          fifo = rw e refl;
        })

  -- Each step of the thread that takes runs, or waits for an element, or for the mutex.
  pub take-Outcome : (c : Taking) → t.taking ≡ c → Result c
  take-Outcome waiting e = waiting-Outcome e
  take-Outcome woken e = woken-Outcome e
  take-Outcome (found a) e = found-Outcome a e
  take-Outcome (seen a v) e = seen-Outcome a v e
  take-Outcome (holding a v) e = holding-Outcome a v e
  take-Outcome (unlinked a v) e = unlinked-Outcome a v e
  take-Outcome (leaving a v) e = leaving-Outcome a v e
  take-Outcome gave_null e = absurd (fact_of q semaphore h threads t is gave_null e)

-- ===== src/Queue/Threads/Puts.antt =====
-- The steps of `threadsafe_queue_put` among other threads.
use mathlib.Core.Path.{subst}
use mathlib.Core.List.{append-nil}
use threaded_ffi_plugin.Prelude.{
  ℕ, ◌<◌, ◌≡◌, ◌≢◌, refl, sym, true, false, some, ◌==◌, if◌then◌else◌, Bool-cases, inl, inr, arith,
}
use threaded_ffi_plugin.Machine.{Ptr, null, TsQueue, State, raw, ok, blocked, fault, store}
use threaded_ffi_plugin.Machine.Access.{
  allocated, malloc-ok, malloc-null, store-ok, write-allocated,
}
use threaded_ffi_plugin.Host.{Vm}
use threaded_ffi_plugin.Queue.{lock}
use threaded_ffi_plugin.Queue.Cells.{Blocks, Cells, elements, node_block, not-has}
use threaded_ffi_plugin.Queue.Steps.{Holds, load-queue}
use threaded_ffi_plugin.Queue.Threads.{Putting, idle, called, filled, System, step_put}
use threaded_ffi_plugin.Queue.Threads.Shared.{allocated-IsShared, allocated-Keeps, Keeps}
use threaded_ffi_plugin.Queue.Threads.Invariant.{
  InSection, Owned-update, Owner, nobody, putter, hanging, taker, is_held, Whose, of_thread,
  IsSound, Stays,
}
use threaded_ffi_plugin.Queue.Threads.Moves.{after_put, Moved, moved}

-- A mutex that is free has no owner.
pub nobody-holds : (o : Owner) → is_held o ≡ false → o ≡ nobody
nobody-holds nobody e = refl
nobody-holds (putter i) e = absurd cc
nobody-holds (hanging i n) e = absurd cc
nobody-holds taker e = absurd cc

pub lock-blocked :
    {W : Type 0} {s : State W} {q : Ptr} {r : TsQueue}
    → Holds s q r
    → r.mutex ≡ true
    → lock q s ≡ blocked s
unfolding lock
lock-blocked h e = rw (load-queue h, e) refl

-- Nodes outside the queue stay private where no block at a node changes.
pub Stays-Keeps :
    {b b' : Blocks} {cells : Cells} {whose : Ptr → Whose}
    → Keeps b cells b'
    → (me : Whose) → Stays b b' cells cells whose whose me
Stays-Keeps keeps me n v x is = (keeps n v x is.here is.out, is.out, is.mine)

module _ {W : Type 0} ⦃vm : Vm W⦄ (q semaphore h threads : ℕ) (t : System W)
    (is : IsSound q semaphore h threads t) (i : ℕ) (lt : i < threads) where
  -- The step runs and keeps what is true, or waits for the mutex, or has no memory for its node.
  pub data Outcome : Putting → Type 0 where
    runs :
        {p0 : Putting} (p : Putting) (s : State W)
        → step_put q p0 t.memory ≡ ok p s
        → IsSound q semaphore h threads (after_put q semaphore h threads t is i p s)
        → Outcome p0
    waits :
        {p0 : Putting}
        → ¬ InSection p0
        → is.r.mutex ≡ true
        → step_put q p0 t.memory ≡ blocked t.memory
        → Outcome p0
    fails :
        {p0 : Putting} → (t.memory.heap).budget ≡ 0 → step_put q p0 t.memory ≡ fault → Outcome p0

  abbrev s : State W
  s = t.memory

  abbrev Move : Putting → State W → Type 0
  Move p s' = Moved q semaphore h threads t is i p s'

  pub goes :
      {p0 : Putting} (p : Putting) (s' : State W)
      → step_put q p0 s ≡ ok p s'
      → Move p s'
      → Outcome p0
  goes p s' e m = runs p s' e (moved q semaphore h threads t is i p s' lt m)

  -- The thread is where `p` is, which is not in the section.
  pub outside_of : (p : Putting) → t.putting i ≡ p → ¬ InSection p → ¬ InSection (t.putting i)
  outside_of p e outside a = outside (subst InSection e a)

  pub idle-Outcome : t.putting i ≡ idle → Outcome idle
  unfolding step_put
  idle-Outcome e = goes idle s refl (record {
    cells = is.cells;
    owner = is.owner;
    whose = is.whose;
    r = is.r;
    count = is.count;
    shared = is.shared;
    held = is.held;
    tail = is.tail;
    fact = tt;
    stays = λ me differ. Stays-Keeps (λ m v x e out. refl) me;
    puts = λ j differ o. o;
    hangs = λ j differ n o. o;
    takes = λ o. o;
    grows = λ d rest g. (rest, g);
    counted = rw e (omega arith);
    room = rw e (omega arith);
    owned = Owned-update threads is.owner t.putting t.taking i _ (outside_of _ e (λ a. a)) is.owned;
    fifo = rw e (sym (append-nil (elements is.cells)));
  })

  pub called-Outcome : (v : Ptr) → t.putting i ≡ called v → Outcome (called v)
  unfolding step_put store
  called-Outcome v e = elim (Bool-cases ((s.heap).budget == 0)) [
    | inl empty ↦ fails (ground (arith, empty)) (rw (malloc-null s (ground (arith, empty))) refl)
    | inr room ↦
        let n = (s.heap).next in
        let fresh = is.shared.heap.fresh n (omega arith) in
        let new = node_block v null in
        let s' : State W = allocated s (some new) in
        let n_real : n ≢ null = omega (arith, is.shared.heap.next_pos) in
        goes (filled n v) s'
          (rw
            (
              malloc-ok s (ground (arith, room)),
              store-ok (allocated s (some raw)) n raw n_real (ground arith) new,
              write-allocated s (some raw) (some new),
            )
            refl)
          (record {
            cells = is.cells;
            owner = is.owner;
            whose = λ p. if p == n then of_thread i else is.whose p;
            r = is.r;
            count = is.count;
            shared = allocated-IsShared is.shared new;
            held = is.held;
            tail = is.tail;
            fact = record {
              real = n_real;
              here = ground arith;
              out = not-has (s.heap).block n is.cells is.shared.chain (λ w m j. cc (fresh, j));
              mine = ground arith;
            };
            stays = λ me differ m w x private.
                let m_n : m ≢ n = λ j. cc (private.here, fresh) in
                (
                  allocated-Keeps is.shared new m w x private.here private.out,
                  private.out,
                  ground (arith, m_n, private.mine),
                );
            puts = λ j differ o. o;
            hangs = λ j differ n o. o;
            takes = λ o. o;
            grows = λ d rest g. (rest, g);
            counted = rw e (omega arith);
            room = rw e (ground (arith, room));
            owned =
                Owned-update threads is.owner t.putting t.taking i _ (outside_of _ e (λ a. a))
                  is.owned;
            fifo = rw e (sym (append-nil (elements is.cells)));
          })
  ]

-- ===== src/Queue/Threads/Safety.antt =====
-- Runs of the threads at one queue, in any order of their steps.
use mathlib.Core.Path.{subst}
use mathlib.Core.List.{append-nil}
use threaded_ffi_plugin.Prelude.{
  ℕ, ◌+◌, ◌≤◌, ◌<◌, ◌≡◌, ◌≢◌, refl, sym, ap, ◌∙◌, List, [], ◌∷◌, ◌++◌, length, arith,
}
use threaded_ffi_plugin.Machine.{Ptr, State, blocked, fault}
use threaded_ffi_plugin.Machine.Results.{ok-state, ok-value}
use threaded_ffi_plugin.Host.{Vm}
use threaded_ffi_plugin.Semaphores.{sem_value_max}
use threaded_ffi_plugin.Queue.Cells.{Cells, elements}
use threaded_ffi_plugin.Queue.Steps.{structure}
use threaded_ffi_plugin.Queue.Channel.{IsChannel}
use threaded_ffi_plugin.Queue.Threads.{
  idle, called, waiting, System, step_put, step_take, Step, calls, puts, takes, Steps, start, later,
}
use threaded_ffi_plugin.Queue.Threads.Family.{total-update, total-zero}
use threaded_ffi_plugin.Queue.Threads.Invariant.{
  InSection, Owned-update, nobody, unowned, owes, spares, claims, in_flight, IsSound,
  PutFact-update,
}
use threaded_ffi_plugin.Queue.Threads.Moves.{after_put}
use threaded_ffi_plugin.Queue.Threads.Puts.{runs, waits, fails}
use threaded_ffi_plugin.Queue.Threads.Section.{put-Outcome}
use threaded_ffi_plugin.Queue.Threads.Taker.{after_take, awaits}
use threaded_ffi_plugin.Queue.Threads.Takes.{take-Outcome}
use threaded_ffi_plugin.Queue.Threads.Taker

-- Before any thread has called: `s` with the elements that are already in the queue.
abbrev pub at_rest : {W : Type 0} → State W → Cells → System W
at_rest s cells = record {
  memory = s;
  putting = λ i. idle;
  taking = waiting;
  was_put = elements cells;
  given = [];
}

pub at_rest-IsSound :
    {W : Type 0} (q semaphore h threads : ℕ) (cells : Cells) (s : State W)
    → IsChannel s q semaphore h cells
    → (s.heap).budget + length cells ≤ sem_value_max
    → IsSound q semaphore h threads (at_rest s cells)
at_rest-IsSound q semaphore h threads cells s ch room = record {
  cells = cells;
  owner = nobody;
  whose = λ p. unowned;
  r = structure semaphore cells;
  count = length cells;
  shared = record {
    holds = record { ne_null = ch.is_queue.ne_null; here = ch.is_queue.shape };
    front = refl;
    source = refl;
    chain = ch.is_queue.linked;
    platform = ch.is_platform;
    heap = ch.is_heap;
  };
  held = refl;
  tail = refl;
  putting = λ i. tt;
  taking = tt;
  counted = omega (arith, total-zero owes (λ i. idle) threads (λ i lt. refl));
  room = omega (arith, room, total-zero spares (λ i. idle) threads (λ i lt. refl));
  owned = tt;
  fifo = refl;
}

pub no_cells : (cells : Cells) → length cells ≡ 0 → cells ≡ []
no_cells [] e = refl
no_cells (c ∷ cells) e = absurd (omega (arith, e))

module _ {W : Type 0} ⦃vm : Vm W⦄ (q semaphore h threads : ℕ) where
  abbrev Sound : System W → Type 0
  Sound = IsSound q semaphore h threads

  Step-IsSound : {t u : System W} → Step q threads t u → Sound t → Sound u
  Step-IsSound {t} (calls i v lt e) is = record {
    cells = is.cells;
    owner = is.owner;
    whose = is.whose;
    r = is.r;
    count = is.count;
    shared = is.shared;
    held = is.held;
    tail = is.tail;
    putting =
        PutFact-update (t.memory.heap).block is.cells is.owner is.whose t.putting i (called v) tt
          (λ j differ. is.putting j);
    taking = is.taking;
    counted =
        omega (arith, is.counted, total-update owes t.putting i (called v) threads lt, ap owes e);
    room =
        omega (arith, is.room, total-update spares t.putting i (called v) threads lt, ap spares e);
    owned =
        Owned-update threads is.owner t.putting t.taking i (called v) (λ a. subst InSection e a)
          is.owned;
    fifo = is.fifo;
  }
  Step-IsSound {t} (puts i {p} {s} lt run) is =
      elim (put-Outcome q semaphore h threads t is i lt (t.putting i) refl) [
        | runs p' s' run' sound ↦
            subst (λ x. Sound (after_put q semaphore h threads t is i x s))
              (ok-value (sym run' ∙ run))
              (subst (λ x. Sound (after_put q semaphore h threads t is i p' x))
                (ok-state (sym run' ∙ run)) sound)
        | waits outside busy run' ↦ absurd (cc (run, run'))
        | fails empty run' ↦ absurd (cc (run, run'))
      ]
  Step-IsSound {t} (takes {c} {s} run) is =
      elim (take-Outcome q semaphore h threads t is t.taking refl) [
        | Taker.runs c' s' run' sound ↦
            subst (λ x. Sound (after_take q semaphore h threads t is x s))
              (ok-value (sym run' ∙ run))
              (subst (λ x. Sound (after_take q semaphore h threads t is c' x))
                (ok-state (sym run' ∙ run)) sound)
        | awaits e empty run' ↦ absurd (cc (run, run'))
        | Taker.waits claim outside busy run' ↦ absurd (cc (run, run'))
      ]

  pub Steps-IsSound : {t u : System W} → Steps q threads t u → Sound t → Sound u
  Steps-IsSound start is = is
  Steps-IsSound (later before step) is = Step-IsSound step (Steps-IsSound before is)

  -- In a queue that is sound no step of a thread is undefined behaviour, but for a put without memory.
  pub IsSound-no_fault :
      (t : System W)
      → Sound t
      → (step_take q t.taking t.memory ≢ fault)
        × ((i : ℕ)
            → i < threads
            → (t.memory.heap).budget ≢ 0
            → step_put q (t.putting i) t.memory ≢ fault)
  IsSound-no_fault t is = (
    λ run. elim (take-Outcome q semaphore h threads t is t.taking refl) [
      | Taker.runs c s run' sound ↦ absurd (cc (run, run'))
      | awaits e empty run' ↦ absurd (cc (run, run'))
      | Taker.waits claim outside busy run' ↦ absurd (cc (run, run'))
    ],
    λ i lt room run. elim (put-Outcome q semaphore h threads t is i lt (t.putting i) refl) [
      | runs p s run' sound ↦ absurd (cc (run, run'))
      | waits outside busy run' ↦ absurd (cc (run, run'))
      | fails empty run' ↦ room empty
    ],
  )

  -- However the steps of any number of threads that put and of one that takes are interleaved, what was
  -- returned are the first of the elements linked, in their order; and no step is undefined
  -- behaviour, but for a put without memory.
  pub Steps-fifo :
      (s : State W) (cells : Cells)
      → IsChannel s q semaphore h cells
      → (s.heap).budget + length cells ≤ sem_value_max
      → (t : System W) → Steps q threads (at_rest s cells) t
      → ((rest : List Ptr) × (t.was_put ≡ t.given ++ rest))
        × (step_take q t.taking t.memory ≢ fault)
        × ((i : ℕ)
            → i < threads
            → (t.memory.heap).budget ≢ 0
            → step_put q (t.putting i) t.memory ≢ fault)
  Steps-fifo s cells ch room t steps =
      let is = Steps-IsSound steps (at_rest-IsSound q semaphore h threads cells s ch room) in
      let (take, put) = IsSound-no_fault t is in
      ((in_flight t.taking ++ elements is.cells, is.fifo), take, put)

  -- The thread that takes waits for an element only where every element that was linked has been
  -- returned, or some thread has yet to signal: no wake-up is lost.
  pub no_lost_wakeup :
      (s : State W) (cells : Cells)
      → IsChannel s q semaphore h cells
      → (s.heap).budget + length cells ≤ sem_value_max
      → (t : System W) → Steps q threads (at_rest s cells) t
      → (u : State W) → t.taking ≡ waiting
      → step_take q waiting t.memory ≡ blocked u
      → ((i : ℕ) → i < threads → owes (t.putting i) ≡ 0)
      → t.was_put ≡ t.given
  no_lost_wakeup s cells ch room t steps u e run settled =
      let is = Steps-IsSound steps (at_rest-IsSound q semaphore h threads cells s ch room) in
      elim (take-Outcome q semaphore h threads t is waiting e) [
        | Taker.runs c s' run' sound ↦ absurd (cc (run, run'))
        | awaits same empty run' ↦
            is.fifo
            ∙ rw
                (
                  e,
                  no_cells is.cells (
                      omega (
                        arith,
                        is.counted,
                        empty,
                        ap claims e,
                        total-zero owes t.putting threads settled,
                      )),
                )
                (append-nil t.given)
        | Taker.waits claim outside busy run' ↦ absurd (cc claim)
      ]

-- ===== src/Queue/Threads/Progress.antt =====
-- Some thread at the queue can always go on, until there is nothing left to do.
use mathlib.Core.Path.{subst}
use native.Mathlib.Decide.{ℕ_discrete}
use mathlib.Core.List.{append-nil}
use threaded_ffi_plugin.Prelude.{
  ℕ, zero, suc, ◌+◌, ◌≤◌, ◌<◌, ◌≡◌, ◌≢◌, refl, sym, ap, ◌∙◌, true, ◌⊎◌, inl, inr, length, arith,
}
use threaded_ffi_plugin.Machine.{State, ok}
use threaded_ffi_plugin.Host.{Vm}
use threaded_ffi_plugin.Semaphores.{sem_value_max}
use threaded_ffi_plugin.Queue.Cells.{Cells}
use threaded_ffi_plugin.Queue.Channel.{IsChannel}
use threaded_ffi_plugin.Queue.Threads.{
  Putting, idle, called, filled, locked, hung, linked, unlocked, Taking, waiting, System, step_put,
  step_take, Steps,
}
use threaded_ffi_plugin.Queue.Threads.Family.{total-zero}
use threaded_ffi_plugin.Queue.Threads.Invariant.{
  Owner, nobody, putter, hanging, taker, is_held, InSection, TakesIn, Owned, IsSound, owes, claims,
}
use threaded_ffi_plugin.Queue.Threads.Puts.{runs, waits, fails}
use threaded_ffi_plugin.Queue.Threads.Section.{put-Outcome}
use threaded_ffi_plugin.Queue.Threads.Taker.{awaits}
use threaded_ffi_plugin.Queue.Threads.Taker
use threaded_ffi_plugin.Queue.Threads.Takes.{take-Outcome}
use threaded_ffi_plugin.Queue.Threads.Safety.{at_rest, at_rest-IsSound, Steps-IsSound, no_cells}

-- A mutex that is held and not by the thread that takes is held by one that puts, in its section.
owner-thread :
    (threads : ℕ) (o : Owner) (f : ℕ → Putting) (c : Taking)
    → is_held o ≡ true
    → ¬ TakesIn c
    → Owned threads o f c
    → (i : ℕ) × (i < threads) × InSection (f i)
owner-thread threads nobody f c held outside own = absurd cc
owner-thread threads (putter i) f c held outside (lt, a) = (i, lt, a)
owner-thread threads (hanging i n) f c held outside (lt, a) = (i, lt, a)
owner-thread threads taker f c held outside own = absurd (outside own)

idle-cases : (p : Putting) → (p ≡ idle) ⊎ (p ≢ idle)
idle-cases idle = inl refl
idle-cases (called v) = inr (λ e. cc)
idle-cases (filled n v) = inr (λ e. cc)
idle-cases (locked n v) = inr (λ e. cc)
idle-cases (hung n) = inr (λ e. cc)
idle-cases linked = inr (λ e. cc)
idle-cases unlocked = inr (λ e. cc)

-- All threads below the bound are idle, or one is not.
search :
    (bound : ℕ) (f : ℕ → Putting)
    → ((i : ℕ) → i < bound → f i ≡ idle) ⊎ ((i : ℕ) × (i < bound) × (f i ≢ idle))
search zero f = inl (λ i lt. absurd (omega (arith, lt)))
search (suc bound) f = elim (idle-cases (f bound)) [
  | inr busy ↦ inr (bound, omega arith, busy)
  | inl last ↦ elim (search bound f) [
    | inr (i, lt, busy) ↦ inr (i, omega (arith, lt), busy)
    | inl below ↦ inl (λ i lt. elim (ℕ_discrete i bound) [
      | yes e ↦ ap f e ∙ last
      | no other ↦ below i (omega (arith, lt, other))
    ])
  ]
]

module _ {W : Type 0} ⦃vm : Vm W⦄ (q semaphore h threads : ℕ) where
  abbrev pub TakeGoes : System W → Type 0
  TakeGoes t = (c : Taking) × (u : State W) × (step_take q t.taking t.memory ≡ ok c u)

  abbrev pub PutGoes : System W → Type 0
  PutGoes t =
      (i : ℕ) × (i < threads)
      × (t.putting i ≢ idle)
      × (p : Putting) × (u : State W) × (step_put q (t.putting i) t.memory ≡ ok p u)

  module _ (t : System W) (is : IsSound q semaphore h threads t)
      (room : (t.memory.heap).budget ≢ 0) where
    holder-goes : is.r.mutex ≡ true → ¬ TakesIn t.taking → PutGoes t
    holder-goes busy outside =
        let (i, lt, a) =
          owner-thread threads is.owner t.putting t.taking (sym is.held ∙ busy) outside is.owned in
        elim (put-Outcome q semaphore h threads t is i lt (t.putting i) refl) [
          | runs p u run sound ↦ (i, lt, λ e. subst InSection e a, p, u, run)
          | waits out busy' run ↦ absurd (out a)
          | fails empty run ↦ absurd (room empty)
        ]

    all_idle-done :
        ((i : ℕ) → i < threads → t.putting i ≡ idle)
        → t.taking ≡ waiting
        → is.count ≡ 0
        → t.was_put ≡ t.given
    all_idle-done all e empty =
        let settled = total-zero owes t.putting threads (λ i lt. ap owes (all i lt)) in
        is.fifo
        ∙ rw (e, no_cells is.cells (omega (arith, is.counted, empty, ap claims e, settled)))
            (append-nil t.given)

    IsSound-goes :
        TakeGoes t
        ⊎ (PutGoes t
            ⊎ (((i : ℕ) → i < threads → t.putting i ≡ idle)
                × (t.taking ≡ waiting)
                × (t.was_put ≡ t.given)))
    IsSound-goes = elim (take-Outcome q semaphore h threads t is t.taking refl) [
      | Taker.runs c u run sound ↦ inl (c, u, run)
      | Taker.waits claim outside busy run ↦ inr (inl (holder-goes busy outside))
      | awaits e empty run ↦ elim (search threads t.putting) [
        | inl all ↦ inr (inr (all, e, all_idle-done all e empty))
        | inr (i, lt, active) ↦
            elim (put-Outcome q semaphore h threads t is i lt (t.putting i) refl) [
              | runs p u run' sound ↦ inr (inl (i, lt, active, p, u, run'))
              | waits out busy run' ↦ inr (inl (holder-goes busy (λ a. subst TakesIn e a)))
              | fails none_left run' ↦ absurd (room none_left)
            ]
      ]
    ]

  -- While `malloc` grants requests no run comes to a standstill too early: the thread that takes can
  -- go on, or one that is in a put can, or no thread is in a put and every element that was linked
  -- has been returned.
  pub no_deadlock :
      (s : State W) (cells : Cells)
      → IsChannel s q semaphore h cells
      → (s.heap).budget + length cells ≤ sem_value_max
      → (t : System W) → Steps q threads (at_rest s cells) t
      → (t.memory.heap).budget ≢ 0
      → TakeGoes t
        ⊎ (PutGoes t
            ⊎ (((i : ℕ) → i < threads → t.putting i ≡ idle)
                × (t.taking ≡ waiting)
                × (t.was_put ≡ t.given)))
  no_deadlock s cells ch fits t steps room =
      IsSound-goes t
        (Steps-IsSound q semaphore h threads steps
          (at_rest-IsSound q semaphore h threads cells s ch fits))
        room

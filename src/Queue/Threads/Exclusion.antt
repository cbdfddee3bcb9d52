-- ===== src/Queue/Threads/Exclusion.antt =====
-- The mutex of the queue among the threads.
use mathlib.Core.Path.{subst}
use threaded_ffi_plugin.Prelude.{ℕ, ◌+◌, ◌≤◌, ◌≡◌, refl, sym, ◌∙◌, length}
use threaded_ffi_plugin.Machine.{Ptr, State}
use threaded_ffi_plugin.Host.{Vm}
use threaded_ffi_plugin.Semaphores.{sem_value_max}
use threaded_ffi_plugin.Queue.Cells.{Blocks, Cells}
use threaded_ffi_plugin.Queue.Channel.{IsChannel}
use threaded_ffi_plugin.Queue.Threads.{
  Putting, idle, called, filled, locked, hung, linked, unlocked, Taking, waiting, woken, found,
  seen, holding, unlinked, leaving, gave_null, System, Steps,
}
use threaded_ffi_plugin.Queue.Threads.Invariant.{
  Owner, nobody, putter, hanging, taker, Whose, PutFact, TakeFact, InSection, TakesIn,
}
use threaded_ffi_plugin.Queue.Threads.Safety.{at_rest, at_rest-IsSound, Steps-IsSound}

-- The thread `i` owns the mutex.
abbrev Owns : ℕ → Owner → Type 0
Owns i (putter j) = j ≡ i
Owns i (hanging j n) = j ≡ i
Owns i _ = ⊥

same_owner : (o : Owner) (i j : ℕ) → Owns i o → Owns j o → i ≡ j
same_owner (putter k) i j a b = sym a ∙ b
same_owner (hanging k n) i j a b = sym a ∙ b
same_owner nobody i j a b = elim a [ ]
same_owner taker i j a b = elim a [ ]

module _ (b : Blocks) (cells : Cells) (owner : Owner) (whose : Ptr → Whose) where
  section-owner :
      (i : ℕ) (p : Putting) → InSection p → PutFact b cells owner whose i p → Owns i owner
  section-owner i (locked n v) a (private, own) = subst (Owns i) (sym own) refl
  section-owner i (hung n) a own = subst (Owns i) (sym own) refl
  section-owner i linked a own = subst (Owns i) (sym own) refl
  section-owner i idle a own = elim a [ ]
  section-owner i (called v) a own = elim a [ ]
  section-owner i (filled n v) a own = elim a [ ]
  section-owner i unlocked a own = elim a [ ]

  taker-owner : (c : Taking) → TakesIn c → TakeFact b cells owner whose c → owner ≡ taker
  taker-owner (holding x v) a (rest, cons, own) = own
  taker-owner (unlinked x v) a (gone, own) = own
  taker-owner waiting a own = elim a [ ]
  taker-owner woken a own = elim a [ ]
  taker-owner (found x) a own = elim a [ ]
  taker-owner (seen x v) a own = elim a [ ]
  taker-owner (leaving x v) a own = elim a [ ]
  taker-owner gave_null a own = elim a [ ]

module _ {W : Type 0} ⦃vm : Vm W⦄ (q semaphore h threads : ℕ) where
  -- Of two threads that put, at most one is between its lock and its unlock, and none is while the
  -- thread that takes is.
  pub mutual_exclusion :
      (s : State W) (cells : Cells)
      → IsChannel s q semaphore h cells
      → (s.heap).budget + length cells ≤ sem_value_max
      → (t : System W) → Steps q threads (at_rest s cells) t
      → ((i j : ℕ) → InSection (t.putting i) → InSection (t.putting j) → i ≡ j)
        × ((i : ℕ) → InSection (t.putting i) → ¬ TakesIn t.taking)
  mutual_exclusion s cells ch room t steps =
      let is =
        Steps-IsSound q semaphore h threads steps
          (at_rest-IsSound q semaphore h threads cells s ch room) in
      let own = section-owner (t.memory.heap).block is.cells is.owner is.whose in
      (
        λ i j a b.
            same_owner is.owner i j (own i (t.putting i) a (is.putting i))
              (own j (t.putting j) b (is.putting j)),
        λ i a b.
            subst (Owns i)
              (taker-owner (t.memory.heap).block is.cells is.owner is.whose t.taking b is.taking)
              (own i (t.putting i) a (is.putting i)),
      )

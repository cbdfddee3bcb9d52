-- ===== src/Worker/Unqueued.antt =====
-- A worker whose queue could not be made.
use threaded_ffi_plugin.Prelude.{
  ℕ, ◌+◌, ◌-◌, ◌≤◌, ◌≡◌, ◌≢◌, ◌⊎◌, refl, Bool, true, false, Bool-cases, inl, inr, some, ◌∷◌, ◌==◌,
  if◌then◌else◌, arith,
}
use threaded_ffi_plugin.Machine.{
  Ptr, null, Worker, worker, as_worker, raw, sem, State, ok, fault, write, load,
}
use threaded_ffi_plugin.Machine.Access.{allocated, malloc-ok, store-ok, load-ok}
use threaded_ffi_plugin.Semaphores.{platform_semaphore_new, semaphore_new}
use threaded_ffi_plugin.Queue.{threadsafe_queue_new, mutex_init, threadsafe_queue_free}
use threaded_ffi_plugin.Queue.Cells.{IsHeap}
use threaded_ffi_plugin.Worker.{worker_new_spawning, start_thread, worker_release}
use threaded_ffi_plugin.Worker.Creation.{platform_block, made, a1, a3, a6}

free_null-fault : {W : Type 0} (fuel : ℕ) (s : State W) → threadsafe_queue_free fuel null s ≡ fault
unfolding threadsafe_queue_free load
free_null-fault fuel s = refl

module _ {W : Type 0} (spawn : Bool) (s : State W) (heap : IsHeap s.heap) where
  abbrev n : Ptr
  n = (s.heap).next

  -- the worker, whose queue is `NULL`
  abbrev pub unqueued : Worker
  unqueued = record (made spawn s heap) { task_queue = null }

  abbrev b8 : State W
  b8 = write (a6 spawn s heap) n (some (worker unqueued))

  abbrev b9 : State W
  b9 =
      if spawn
      then record b8 { thread_budget = s.thread_budget - 1; started = n ∷ s.started }
      else b8

  at_n :
      (b : Bool)
      → ((if b
          then record b8 { thread_budget = s.thread_budget - 1; started = n ∷ s.started }
          else b8).heap
        ).block
          n
        ≡ some (worker unqueued)
  at_n true = ground arith
  at_n false = ground arith

  -- Where `pthread_mutex_init` fails, `worker_newSpawning` gives a worker all the same, and starts the
  -- thread that runs it if one is wanted; the queue of the worker is `NULL`, and its release is undefined
  -- behaviour. `malloc` must grant three requests, and `pthread_create` a thread if one is wanted.
  pub worker_release-unqueued :
      (fuel : ℕ)
      → 3 ≤ (s.heap).budget
      → s.mutex_budget ≡ 0
      → (spawn ≡ false) ⊎ (s.thread_budget ≢ 0)
      → (t : State W) × (worker_new_spawning spawn s ≡ ok n t)
        × ((t.heap).block n ≡ some (worker unqueued))
        × (t.started ≡ (if spawn then n ∷ s.started else s.started))
        × (worker_release fuel n t ≡ fault)
  unfolding worker_new_spawning start_thread platform_semaphore_new semaphore_new
      threadsafe_queue_new mutex_init worker_release
  worker_release-unqueued fuel room no_mutex threads =
      let real : n ≢ null = omega (arith, heap.next_pos) in
      let s1 : State W = a1 spawn s heap in
      let s3 : State W = a3 spawn s heap in
      let s6 : State W = a6 spawn s heap in
      let none_made : (s.mutex_budget == 0) ≡ true = ground (arith, no_mutex) in
      let s4 : State W = write s3 (n + 1 + 1) (some (sem 0)) in
      (
        b9,
        rw
            (
              malloc-ok s (omega (arith, room)),
              malloc-ok s1 (omega (arith, room)),
              malloc-ok (allocated s1 (some raw)) (omega (arith, room)),
              store-ok s3 (n + 1 + 1) raw (omega arith) (ground arith) (sem 0),
              store-ok s4 (n + 1) raw (omega arith) (ground arith) (platform_block spawn s heap),
              none_made,
              store-ok s6 n raw real (ground arith) (worker unqueued),
            )
            (elim (Bool-cases spawn) [
              | inr none_wanted ↦ rw none_wanted refl
              | inl wanted ↦
                  let some_left : (s.thread_budget == 0) ≡ false =
                    ground (arith, threads, wanted) in
                  rw (wanted, some_left) refl
            ]),
        at_n spawn,
        ground arith,
        rw
            (
              load-ok b9 n (worker unqueued) real (at_n spawn) as_worker unqueued refl,
              free_null-fault fuel b9,
            )
            refl,
      )

-- ===== src/Worker/Lifetime.antt =====
-- A worker from its creation to its release.
use mathlib.Core.Option.{some-injective}
use native.Mathlib.Decide.{ℕ_discrete}
use threaded_ffi_plugin.Prelude.{
  ℕ, ◌+◌, ◌≤◌, ◌<◌, ◌≡◌, ◌≢◌, ◌⊎◌, refl, sym, ap, ◌∙◌, Bool, false, ◌||◌, Bool-cases, inl, inr,
  none, some, Option, List, [], ◌==◌, if◌then◌else◌, arith, length,
}
use threaded_ffi_plugin.Machine.{
  Ptr, Block, WorkerTask, task, worker, as_worker, sem, State, ok, write, ◌>>=◌,
}
use threaded_ffi_plugin.Machine.Access.{load-ok, free-ok}
use threaded_ffi_plugin.Queue.Cells.{Cells, has, queue_block, node_block, IsHeap, not-has}
use threaded_ffi_plugin.Queue.Whole.{threadsafe_queue_free_lem}
use threaded_ffi_plugin.Worker.{worker_new_spawning, worker_release}
use threaded_ffi_plugin.Worker.Tasks.{Request, IsReady}
use threaded_ffi_plugin.Worker.Frames.{AreTasks-length}
use threaded_ffi_plugin.Worker.Creation.{created, platform_block, worker_new_spawning-IsReady}

module _ {W : Type 0} (w q semaphore h fuel : Ptr) (cells : Cells) (rs : List Request) (s : State W)
    (is : IsReady s w q semaphore h cells rs) where
  -- what the release of the worker leaves at `p`
  abbrev pub released : Ptr → Option Block
  released p = if (p == w) || (p == q) || has p cells then none else (s.heap).block p

  -- a block that is neither the worker nor part of its queue
  keeps :
      (p : Ptr) (x : Block)
      → x ≢ worker is.this
      → x ≢ queue_block semaphore cells
      → ((v m : Ptr) → x ≢ node_block v m)
      → (s.heap).block p ≡ some x
      → released p ≡ some x
  keeps p x no_worker no_queue no_node e =
      let p_w : p ≢ w =
        λ j. no_worker (some-injective x _ (sym e ∙ ap (s.heap).block j ∙ is.shape)) in
      let p_q : p ≢ q = λ j.
        no_queue (some-injective x _ (sym e ∙ ap (s.heap).block j ∙ is.channel.is_queue.shape)) in
      let out =
        not-has (s.heap).block p cells is.channel.is_queue.linked
          (λ v m f. no_node v m (some-injective x _ (sym e ∙ f))) in
      ground (arith, e, out)

  -- Given more fuel than there are requests, `worker_release` gives back the worker, its queue and
  -- every node of it, and no other block: neither the tasks that the queue still held nor either
  -- block of its semaphore.
  pub worker_release_lem :
      length rs < fuel
      → (t : State W) × (worker_release fuel w s ≡ ok tt t)
        × ((p : Ptr) → (t.heap).block p ≡ released p)
        × ((p : Ptr) (x : WorkerTask)
            → (s.heap).block p ≡ some (task x)
            → (t.heap).block p ≡ some (task x))
        × ((t.heap).block semaphore ≡ (s.heap).block semaphore)
        × ((t.heap).block h ≡ (s.heap).block h)
  unfolding worker_release
  worker_release_lem more =
      let few = AreTasks-length s h (length rs) cells rs is.tasks in
      let q_is = is.channel.is_queue in
      let platform = is.channel.is_platform in
      let (t, run, gone) =
        threadsafe_queue_free_lem q semaphore fuel cells s q_is (omega (arith, few, more)) in
      let w_q : w ≢ q = λ j. cc (is.shape, q_is.shape, ap (s.heap).block j) in
      let w_out = not-has (s.heap).block w cells q_is.linked (λ v m e. cc (e, is.shape)) in
      let at_w : (t.heap).block w ≡ some (worker is.this) =
        gone w ∙ ground (arith, is.shape, w_out) in
      let frees : (p : Ptr) → ((write t w none).heap).block p ≡ released p = λ p.
        elim (Bool-cases (has p cells)) [
          | inl i ↦ ground (arith, gone p, i)
          | inr i ↦ ground (arith, gone p, i)
        ] in
      (
        write t w none,
        rw
            (
              load-ok s w (worker is.this) is.ne_null is.shape as_worker is.this refl,
              is.task_queue,
              run,
            )
            (free-ok t w (worker is.this) is.ne_null at_w),
        frees,
        λ p x e. frees p ∙ keeps p (task x) (λ d. cc) (λ d. cc) (λ v m d. cc) e,
        frees semaphore
            ∙ keeps semaphore _ (λ d. cc) (λ d. cc) (λ v m d. cc) platform.shape
            ∙ sym platform.shape,
        frees h ∙ keeps h _ (λ d. cc) (λ d. cc) (λ v m d. cc) platform.counts ∙ sym platform.counts,
      )

module _ {W : Type 0} (spawn : Bool) (fuel : ℕ) (s : State W) (heap : IsHeap s.heap) where
  -- A worker that is created and released again leaves two blocks behind, which are those of the
  -- semaphore of its queue; the memory is else as it was before. `malloc` must grant four requests,
  -- `pthread_mutex_init` make one mutex, and `pthread_create` start a thread if one is wanted.
  pub worker_release-worker_new_spawning :
      4 ≤ (s.heap).budget
      → s.mutex_budget ≢ 0
      → (spawn ≡ false) ⊎ (s.thread_budget ≢ 0)
      → 0 < fuel
      → (t : State W) × ((worker_new_spawning spawn >>= worker_release fuel) s ≡ ok tt t)
        × ((p : Ptr)
            → (t.heap).block p ≡ (
                if p == (s.heap).next + 1
                then some (platform_block spawn s heap)
                else if p == (s.heap).next + 2
                then some (sem 0)
                else (s.heap).block p))
  worker_release-worker_new_spawning room mutexes threads some_fuel =
      let n = (s.heap).next in
      let s1 = created spawn s heap in
      let (makes, ready, _, _, old) =
        worker_new_spawning-IsReady spawn s heap room mutexes threads in
      let (t, frees, left, _, at_semaphore, at_count) =
        worker_release_lem n (n + 3) (n + 1) (n + 2) fuel [] [] s1 ready some_fuel in
      (
        t,
        rw makes frees,
        λ p. left p ∙ elim (ℕ_discrete p n) [
          | yes e ↦ rw e (ground (arith, heap.fresh n (omega arith)))
          | no a ↦ elim (ℕ_discrete p (n + 3)) [
            | yes e ↦ rw e (ground (arith, heap.fresh (n + 3) (omega arith)))
            | no b ↦ ground arith
          ]
        ],
      )

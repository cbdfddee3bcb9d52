-- ===== src/Worker/Round.antt =====
-- The three kinds of round of `worker_run`.
use threaded_ffi_plugin.Prelude.{
  ℕ, suc, ◌+◌, ◌<◌, ◌≡◌, ◌≢◌, refl, ap, ◌∙◌, true, false, none, some, List, ◌==◌, if◌then◌else◌,
  arith, length,
}
use threaded_ffi_plugin.Machine.{Ptr, WorkerTask, task, sem, as_task, State, ok, write}
use threaded_ffi_plugin.Machine.Access.{load-ok, free-ok}
use threaded_ffi_plugin.Host.{Vm, Ffi}
use threaded_ffi_plugin.Semaphores.{sem_value_max}
use threaded_ffi_plugin.Semaphores.Wait.{IsPlatform, signal-platform}
use threaded_ffi_plugin.Queue.Cells.{Cells}
use threaded_ffi_plugin.Queue.Contents.{update_ne}
use threaded_ffi_plugin.Queue.Channel.{IsChannel-write, IsChannel-world}
use threaded_ffi_plugin.Worker.{execute_worker_task, serve}
use threaded_ffi_plugin.Worker.Beside.{beside-ne}
use threaded_ffi_plugin.Worker.Tasks.{Request, call, return_to, return_here, task_of, among, effect}
use threaded_ffi_plugin.Worker.Serve.{Kept, AreTasks-Kept, IsPlatform-moved, Served, Begun}

-- The world and the task at `t`, which is none of the cells, may change.
freed-Kept :
    {W : Type 0} (s : State W) (h room t : ℕ) (x : WorkerTask) (cells : Cells) (world : W)
    → (s.heap).block t ≡ some (task x)
    → among t cells ≡ false
    → Kept s (write (record s { world = world }) t none) h (suc room) room cells
freed-Kept s h room t x cells world e out = record {
  tasks = λ p y i e'.
      update_ne (s.heap).block t none p (λ j. cc (i, out, ap (λ z. among z cells) j)) ∙ e';
  semaphores = λ p r n is r_h. (
    n,
    IsPlatform-moved s (write (record s { world = world }) t none) p r n n is
        (update_ne (s.heap).block t none p (λ j. cc (is.shape, e, ap (s.heap).block j)))
        (update_ne (s.heap).block t none r (λ j. cc (is.counts, e, ap (s.heap).block j))
          ∙ is.counts),
    omega arith,
  );
}

-- A semaphore is signalled once.
signalled-Kept :
    {W : Type 0} (s : State W) (h room handle n : ℕ) (cells : Cells)
    → (s.heap).block handle ≡ some (sem n)
    → Kept s (write s handle (some (sem (n + 1)))) h (suc room) room cells
signalled-Kept s h room handle n cells e = record {
  tasks =
      λ p y i e'. update_ne (s.heap).block handle _ p (λ j. cc (e', e, ap (s.heap).block j)) ∙ e';
  semaphores = λ p r m is r_h. (
    if r == handle then m + 1 else m,
    IsPlatform-moved s (write s handle (some (sem (n + 1)))) p r m _ is
        (update_ne (s.heap).block handle _ p (λ j. cc (is.shape, e, ap (s.heap).block j)))
        (ground (arith, is.counts)),
    ground arith,
  );
}

module _ {W : Type 0} ⦃vm : Vm W⦄ ⦃ffi : Ffi W⦄ (w q semaphore h t : Ptr) (cells : Cells)
    (rs : List Request) (s now : State W) where
  -- A return to the worker's own thread ends the loop.
  pub serve-return_here :
      Begun s now w q semaphore h t cells return_here rs
      → (serve w s ≡ ok true now) × Served s now w q semaphore h t cells return_here rs
  unfolding serve
  serve-return_here k = (
    rw (k.next_call) (
        ground (
          arith,
          load-ok now t (task (task_of return_here)) k.ne_null k.at_task as_task
              (task_of return_here) refl,
        )),
    record {
      world = k.world;
      ready = record {
        ne_null = k.worker_ne_null;
        this = k.this;
        shape = k.at_worker;
        task_queue = k.task_queue;
        channel = k.channel;
        tasks =
            AreTasks-Kept now now h (suc (length rs)) (length rs) cells rs
              (record { tasks = λ p x i e. e; semaphores = λ p r n is r_h. (n, is, omega arith) })
              k.tasks;
      };
      counts = λ p n p_h e. k.counts p n p_h e ∙ ap (λ m. some (sem m)) (omega arith);
      gone = k.at_task;
      beside = k.beside;
      kept = k.kept;
    },
  )

  -- the state after a callout
  abbrev called : Request → State W
  called r = write (record now { world = effect r s.world }) t none

  -- A callout is made, its semaphore is signalled, and its task is given back.
  pub serve-call :
      (f c p r : Ptr) (i : ℕ)
      → Begun s now w q semaphore h t cells (call f c p r i) rs
      → (serve w s ≡ ok false (called (call f c p r i)))
        × Served s (called (call f c p r i)) w q semaphore h t cells (call f c p r i) rs
  unfolding serve execute_worker_task
  serve-call f c p r i k =
      let x = task_of (call f c p r i) in
      let world = effect (call f c p r i) s.world in
      let s1 : State W = record now { world = world } in
      let w_t : w ≢ t = λ j. cc (k.at_worker, k.at_task, ap (now.heap).block j) in
      let t_s : t ≢ semaphore =
        λ j. cc (k.channel.is_platform.shape, k.at_task, ap (now.heap).block j) in
      let t_h : t ≢ h = λ j. cc (k.channel.is_platform.counts, k.at_task, ap (now.heap).block j) in
      (
        rw (k.next_call) (
            ground (
              arith,
              k.world,
              load-ok now t (task x) k.ne_null k.at_task as_task x refl,
              free-ok s1 t (task x) k.ne_null k.at_task,
            )),
        record {
          world = refl;
          ready = record {
            ne_null = k.worker_ne_null;
            this = k.this;
            shape = update_ne (now.heap).block t none w w_t ∙ k.at_worker;
            task_queue = k.task_queue;
            channel =
                IsChannel-write q semaphore h cells s1 t (task x) none
                  (IsChannel-world q semaphore h cells now world k.channel) k.at_task tt t_s t_h;
            tasks =
                AreTasks-Kept now (called (call f c p r i)) h (suc (length rs)) (length rs) cells rs
                  (freed-Kept now h (length rs) t x cells world k.at_task k.alone) k.tasks;
          };
          counts = λ z n z_h e.
              update_ne (now.heap).block t none z
                (λ j. cc (k.counts z n z_h e, k.at_task, ap (now.heap).block j))
              ∙ k.counts z n z_h e
              ∙ ap (λ m. some (sem m)) (omega arith);
          gone = ground arith;
          kept = λ x e. update_ne (now.heap).block t none w w_t ∙ k.kept x e;
          beside = λ z y i e.
              update_ne (now.heap).block t none z
                (beside-ne (now.heap).block z t (some y) _ (k.beside z y i e) k.at_task i (λ b. b))
              ∙ k.beside z y i e;
        },
      )

  -- A return to another thread signals that thread's semaphore.
  pub serve-return_to :
      (p r n : Ptr)
      → Begun s now w q semaphore h t cells (return_to p r) rs
      → IsPlatform now p r n
      → r ≢ h
      → n < sem_value_max
      → (serve w s ≡ ok false (write now r (some (sem (n + 1)))))
        × Served s (write now r (some (sem (n + 1)))) w q semaphore h t cells (return_to p r) rs
  unfolding serve
  serve-return_to p r n k is r_h small =
      let x = task_of (return_to p r) in
      let w_r : w ≢ r = λ j. cc (k.at_worker, is.counts, ap (now.heap).block j) in
      let t_r : t ≢ r = λ j. cc (k.at_task, is.counts, ap (now.heap).block j) in
      let r_s : r ≢ semaphore =
        λ j. cc (k.channel.is_platform.shape, is.counts, ap (now.heap).block j) in
      (
        rw (k.next_call) (
            ground (
              arith,
              is.ne_null,
              load-ok now t (task x) k.ne_null k.at_task as_task x refl,
              signal-platform p r n now is small,
            )),
        record {
          world = k.world;
          ready = record {
            ne_null = k.worker_ne_null;
            this = k.this;
            shape = update_ne (now.heap).block r _ w w_r ∙ k.at_worker;
            task_queue = k.task_queue;
            channel =
                IsChannel-write q semaphore h cells now r (sem n) _ k.channel is.counts tt r_s r_h;
            tasks =
                AreTasks-Kept now (write now r (some (sem (n + 1)))) h (suc (length rs)) (length rs)
                  cells rs (signalled-Kept now h (length rs) r n cells is.counts) k.tasks;
          };
          counts = λ z m z_h e. let e' = k.counts z m z_h e in ground arith;
          gone = update_ne (now.heap).block r _ t t_r ∙ k.at_task;
          kept = λ x e. update_ne (now.heap).block r _ w w_r ∙ k.kept x e;
          beside = λ z y i e.
              update_ne (now.heap).block r _ z
                (beside-ne (now.heap).block z r (some y) _ (k.beside z y i e) is.counts i (λ b. b))
              ∙ k.beside z y i e;
        },
      )

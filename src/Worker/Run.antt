-- ===== src/Worker/Run.antt =====
-- `worker_run`, over all the tasks of its queue.
use threaded_ffi_plugin.Prelude.{
  ℕ, zero, suc, ◌+◌, ◌<◌, ◌≡◌, ◌≢◌, refl, ap, ◌∙◌, some, List, [], ◌∷◌, if◌then◌else◌, arith,
  length,
}
use threaded_ffi_plugin.Machine.{
  Ptr, worker, Worker, sem, as_worker, State, Run, ok, write, blocked,
}
use threaded_ffi_plugin.Machine.Access.{load-ok, store-ok}
use threaded_ffi_plugin.Host.{Vm, Ffi}
use threaded_ffi_plugin.Semaphores.Wait.{settled}
use threaded_ffi_plugin.Queue.Cells.{Cells}
use threaded_ffi_plugin.Queue.Contents.{update_ne}
use threaded_ffi_plugin.Queue.Channel.{taken, take-nil, IsChannel-write}
use threaded_ffi_plugin.Worker.{worker_next_call, serve, worker_loop, worker_run, set_self_thread}
use threaded_ffi_plugin.Worker.Tasks.{
  Request, call, return_to, return_here, IsReady, effects, signals, served, left, returns,
}
use threaded_ffi_plugin.Worker.Beside.{Besides, KeepsRunner, beside-ne}
use threaded_ffi_plugin.Worker.Frames.{IsReady-Stays}
use threaded_ffi_plugin.Worker.Serve.{Kept, AreTasks-Kept, Served, begin, IsPlatform-moved}
use threaded_ffi_plugin.Worker.Round.{serve-call, serve-return_here, serve-return_to}

module _ {W : Type 0} ⦃vm : Vm W⦄ ⦃ffi : Ffi W⦄ where
  -- A run that has served the requests `did` and left the requests `rest` in the queue.
  pub record Ran (s s' : State W) (w q semaphore h : Ptr) (did rest : List Request) : Type 0 where
    pub world : s'.world ≡ effects did s.world
    pub cells : Cells
    pub ready : IsReady s' w q semaphore h cells rest
    pub counts :
        (p n : ℕ)
        → p ≢ h
        → (s.heap).block p ≡ some (sem n)
        → (s'.heap).block p ≡ some (sem (n + signals p did))
    pub beside : Besides s s'
    pub runner : KeepsRunner s s' w

signals-cons :
    (p : Ptr) (r : Request) (rs : List Request)
    → signals p (r ∷ rs) ≡ signals p (r ∷ []) + signals p rs
signals-cons p (call f c a b i) rs = omega arith
signals-cons p return_here rs = omega arith
signals-cons p (return_to a b) rs = ground arith

-- The state of a thread that waits is still the same for the worker.
IsReady-settled :
    {W : Type 0} (w q semaphore h : Ptr) (s : State W)
    → IsReady s w q semaphore h [] []
    → IsReady (settled s) w q semaphore h [] []
IsReady-settled w q semaphore h s is =
    IsReady-Stays s (settled s) (λ p x i e. e) w q semaphore h [] [] is.channel.is_heap is

module _ {W : Type 0} ⦃vm : Vm W⦄ ⦃ffi : Ffi W⦄ (w q semaphore h : Ptr) where
  serve-nil : (s : State W) → IsReady s w q semaphore h [] [] → serve w s ≡ blocked (settled s)
  unfolding serve worker_next_call
  serve-nil s is = rw (
    load-ok s w (worker is.this) is.ne_null is.shape as_worker is.this refl,
    is.task_queue,
    take-nil q semaphore h s is.channel,
  )

  -- A round, and then the rest of the run.
  Ran-cons :
      (s m s' : State W) (t : Ptr) (cells : Cells) (r : Request) (rs did rest : List Request)
      → Served s m w q semaphore h t cells r rs
      → Ran m s' w q semaphore h did rest
      → Ran s s' w q semaphore h (r ∷ did) rest
  Ran-cons s m s' t cells r rs did rest one more = record {
    world = more.world ∙ ap (effects did) one.world;
    cells = more.cells;
    ready = more.ready;
    counts = λ p n p_h e.
        more.counts p (n + signals p (r ∷ [])) p_h (one.counts p n p_h e)
        ∙ ap (λ k. some (sem k)) (omega (arith, signals-cons p r did));
    beside = λ p x i e. more.beside p x i (one.beside p x i e);
    runner = λ x e. more.runner x (one.kept x e);
  }

  abbrev pub Finishes : List Request → State W → Run W (Unit {0}) → Type 0
  Finishes rs s r =
      (s' : State W) × (r ≡ (if returns rs then ok tt s' else blocked s'))
      × Ran s s' w q semaphore h (served rs) (left rs)

  loop-Ran :
      (fuel : ℕ) (cells : Cells) (rs : List Request) (s : State W)
      → IsReady s w q semaphore h cells rs
      → length rs < fuel
      → Finishes rs s (worker_loop fuel w s)
  unfolding worker_loop
  loop-Ran zero cells rs s is lt = absurd (omega arith)
  loop-Ran (suc fuel) [] [] s is lt = (
    settled s,
    rw (serve-nil s is),
    record {
      world = refl;
      cells = [];
      ready = IsReady-settled w q semaphore h s is;
      counts = λ p n p_h e. e ∙ ap (λ m. some (sem m)) (omega arith);
      beside = λ p x i e. e;
      runner = λ x e. (x, e, refl);
    },
  )
  loop-Ran (suc fuel) [] (r ∷ rs) s is lt = elim is.tasks [ ]
  loop-Ran (suc fuel) (c ∷ cells) [] s is lt = elim is.tasks [ ]
  loop-Ran (suc fuel) ((a, t) ∷ cells) (return_here ∷ rs) s is lt =
      let now = taken q semaphore h a t cells s in
      let k = begin w q semaphore h a t cells return_here rs s is in
      let (e, one) = serve-return_here w q semaphore h t cells rs s now k in
      (
        now,
        rw e,
        record {
          world = one.world;
          cells = cells;
          ready = one.ready;
          counts = one.counts;
          beside = one.beside;
          runner = λ x e. (x, one.kept x e, refl);
        },
      )
  loop-Ran (suc fuel) ((a, t) ∷ cells) (call f c p r i ∷ rs) s is lt =
      let now = taken q semaphore h a t cells s in
      let k = begin w q semaphore h a t cells (call f c p r i) rs s is in
      let (e, one) = serve-call w q semaphore h t cells rs s now f c p r i k in
      let (s', e', more) = loop-Ran fuel cells rs _ one.ready (omega arith) in
      (s', rw (e, e'), Ran-cons s _ s' t cells (call f c p r i) rs (served rs) (left rs) one more)
  loop-Ran (suc fuel) ((a, t) ∷ cells) (return_to p r ∷ rs) s is lt =
      let now = taken q semaphore h a t cells s in
      let k = begin w q semaphore h a t cells (return_to p r) rs s is in
      let (n, platform, r_h, small) = k.can in
      let (e, one) =
        serve-return_to w q semaphore h t cells rs s now p r n k platform r_h (omega arith) in
      let (s', e', more) = loop-Ran fuel cells rs _ one.ready (omega arith) in
      (s', rw (e, e'), Ran-cons s _ s' t cells (return_to p r) rs (served rs) (left rs) one more)

-- Writing the worker's structure disturbs neither its queue nor its tasks.
pub written-Kept :
    {W : Type 0} (s : State W) (h room w : ℕ) (x y : Worker) (cells : Cells)
    → (s.heap).block w ≡ some (worker x)
    → Kept s (write s w (some (worker y))) h room room cells
written-Kept s h room w x y cells e = record {
  tasks = λ p z i e'.
      update_ne (s.heap).block w (some (worker y)) p (λ j. cc (e, e', ap (s.heap).block j)) ∙ e';
  semaphores = λ p r n is r_h. (
    n,
    IsPlatform-moved s (write s w (some (worker y))) p r n n is
        (update_ne (s.heap).block w (some (worker y)) p
          (λ j. cc (is.shape, e, ap (s.heap).block j)))
        (update_ne (s.heap).block w (some (worker y)) r
            (λ j. cc (is.counts, e, ap (s.heap).block j))
          ∙ is.counts),
    omega arith,
  );
}

pub IsReady-written :
    {W : Type 0} (s : State W) (w q semaphore h : Ptr) (cells : Cells) (rs : List Request)
    (x y : Worker)
    → (s.heap).block w ≡ some (worker x)
    → y.task_queue ≡ q
    → IsReady s w q semaphore h cells rs
    → IsReady (write s w (some (worker y))) w q semaphore h cells rs
IsReady-written s w q semaphore h cells rs x y at e is = record {
  ne_null = is.ne_null;
  this = y;
  shape = ground arith;
  task_queue = e;
  channel =
      IsChannel-write q semaphore h cells s w (worker x) (some (worker y)) is.channel at tt
        (λ j. cc (is.channel.is_platform.shape, at, ap (s.heap).block j))
        (λ j. cc (is.channel.is_platform.counts, at, ap (s.heap).block j));
  tasks =
      AreTasks-Kept s (write s w (some (worker y))) h (length rs) (length rs) cells rs
        (written-Kept s h (length rs) w x y cells at) is.tasks;
}

module _ {W : Type 0} ⦃vm : Vm W⦄ ⦃ffi : Ffi W⦄ (w q semaphore h : Ptr) (cells : Cells)
    (rs : List Request) (s : State W) (is : IsReady s w q semaphore h cells rs) where
  abbrev owner : Worker
  owner = record (is.this) { self_thread = s.thread }

  abbrev owned : State W
  owned = write s w (some (worker owner))

  owned-IsReady : IsReady owned w q semaphore h cells rs
  owned-IsReady = IsReady-written s w q semaphore h cells rs is.this owner is.shape is.task_queue is

  -- With the requests `rs` in its queue and more rounds than requests, `worker_run` serves them in
  -- order up to the first return to its own thread, and then comes back; if there is none, it
  -- waits once the queue is empty. Each callout is made once, and its semaphore of the virtual
  -- machine is signalled before the next request is looked at. The semaphore of a thread that
  -- waits for its callback is signalled once for each return to it. The requests behind the return
  -- stay in the queue.
  pub run-Ran : (fuel : ℕ) → length rs < fuel → Finishes w q semaphore h rs s (worker_run fuel w s)
  unfolding worker_run set_self_thread
  run-Ran fuel lt =
      let (s', e, ran) = loop-Ran w q semaphore h fuel cells rs owned owned-IsReady lt in
      (
        s',
        rw
            (
              load-ok s w (worker is.this) is.ne_null is.shape as_worker is.this refl,
              store-ok s w (worker is.this) is.ne_null is.shape (worker owner),
            )
            e,
        record {
          world = ran.world;
          cells = ran.cells;
          ready = ran.ready;
          counts = λ p n p_h e'. ran.counts p n p_h (
              update_ne (s.heap).block w (some (worker owner)) p
                (λ j. cc (is.shape, e', ap (s.heap).block j))
              ∙ e');
          runner = λ x e'.
              let (y, at, same) = ran.runner owner (ground arith) in
              (y, at, same ∙ cc (is.shape, e'));
          beside = λ p x i e'. ran.beside p x i (
              update_ne (s.heap).block w (some (worker owner)) p
                (beside-ne (s.heap).block p w (some x) _ e' is.shape i (λ b. b))
              ∙ e');
        },
      )

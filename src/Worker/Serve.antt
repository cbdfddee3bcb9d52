-- ===== src/Worker/Serve.antt =====
-- One round of `worker_run`.
use threaded_ffi_plugin.Prelude.{
  ℕ, suc, ◌+◌, ◌≤◌, ◌≡◌, ◌≢◌, refl, sym, ap, ◌∙◌, Bool, true, false, Option, none, some, List, [],
  ◌∷◌, arith, length,
}
use threaded_ffi_plugin.Machine.{
  Ptr, null, Block, WorkerTask, task, worker, Worker, sem, as_worker, State, ok,
}
use threaded_ffi_plugin.Machine.Access.{load-ok}
use threaded_ffi_plugin.Host.{Vm, Ffi}
use threaded_ffi_plugin.Semaphores.Wait.{IsPlatform}
use threaded_ffi_plugin.Queue.Cells.{Cells}
use threaded_ffi_plugin.Queue.Contents.{IsOther}
use threaded_ffi_plugin.Queue.Channel.{IsChannel, taken, taken-other, take-cons, taken-IsChannel}
use threaded_ffi_plugin.Worker.{worker_next_call}
use threaded_ffi_plugin.Worker.Beside.{Besides, KeepsWorker, IsOther-IsBeside, beside-ne_sem}
use threaded_ffi_plugin.Worker.Tasks.{
  Request, call, return_to, return_here, task_of, CanSignal, among, AreTasks, IsReady, effect,
  signals,
}

-- The tasks of the cells and the semaphores that they signal are what they were; a count may have
-- grown by what `room` has shrunk.
pub record Kept {W : Type 0} (s s' : State W) (h room room' : ℕ) (cells : Cells) : Type 0 where
  pub tasks :
      (t : Ptr) (x : WorkerTask)
      → among t cells ≡ true
      → (s.heap).block t ≡ some (task x)
      → (s'.heap).block t ≡ some (task x)
  pub semaphores :
      (p r : Ptr) (n : ℕ)
      → IsPlatform s p r n
      → r ≢ h
      → (m : ℕ) × IsPlatform s' p r m × (m + room' ≤ n + room)

module _ {W : Type 0} (s s' : State W) (h room room' : ℕ) where
  pub CanSignal-Kept :
      (cells : Cells) (r : Request)
      → Kept s s' h room room' cells
      → CanSignal s h room r
      → CanSignal s' h room' r
  CanSignal-Kept cells (call f c p r i) k can = tt
  CanSignal-Kept cells return_here k can = tt
  CanSignal-Kept cells (return_to p r) k (n, is, r_h, fits) =
      let (m, is', le) = k.semaphores p r n is r_h in (m, is', r_h, omega arith)

  pub AreTasks-Kept :
      (cells : Cells) (rs : List Request)
      → Kept s s' h room room' cells
      → AreTasks s h room cells rs
      → AreTasks s' h room' cells rs
  AreTasks-Kept [] [] k a = tt
  AreTasks-Kept [] (r ∷ rs) k a = elim a [ ]
  AreTasks-Kept (c ∷ cells) [] k a = elim a [ ]
  AreTasks-Kept ((c, t) ∷ cells) (r ∷ rs) k (nn, e, can, out, rest) = (
    nn,
    k.tasks t (task_of r) (ground arith) e,
    CanSignal-Kept ((c, t) ∷ cells) r k can,
    out,
    AreTasks-Kept cells rs
        (record { tasks = λ p x i. k.tasks p x (ground arith); semaphores = k.semaphores }) rest,
  )

-- the two blocks of a semaphore stand where its handle says
pub IsPlatform-moved :
    {W : Type 0} (s s' : State W) (p r : Ptr) (n m : ℕ)
    → IsPlatform s p r n
    → ((s'.heap).block p ≡ (s.heap).block p)
    → ((s'.heap).block r ≡ some (sem m))
    → IsPlatform s' p r m
IsPlatform-moved s s' p r n m is e counts = record {
  ne_null = is.ne_null;
  handle_ne_null = is.handle_ne_null;
  shape = e ∙ is.shape;
  counts = counts;
}

module _ {W : Type 0} (q semaphore h a t : Ptr) (cells : Cells) (s : State W)
    (ch : IsChannel s q semaphore h ((a, t) ∷ cells)) where
  abbrev after : State W
  after = taken q semaphore h a t cells s

  stays :
      (p : Ptr) (x : Block)
      → (s.heap).block p ≡ some x
      → IsOther (some x)
      → ((n : ℕ) → x ≢ sem n)
      → (after.heap).block p ≡ some x
  stays p x e o no_sem =
      taken-other q semaphore h a t cells s p x ch e o
        (λ i. no_sem (suc (length cells)) (cc (e, ch.is_platform.counts, ap (s.heap).block i)))

  taken-Kept : (room : ℕ) → Kept s after h room room cells
  taken-Kept room = record {
    tasks = λ p x i e. stays p (task x) e tt (λ n d. cc);
    semaphores = λ p r n is r_h. (
      n,
      IsPlatform-moved s after p r n n is (stays p _ is.shape tt (λ n d. cc) ∙ sym is.shape)
          (taken-other q semaphore h a t cells s r (sem n) ch is.counts tt r_h),
      omega arith,
    );
  }

-- what a round leaves at the address of its task
abbrev pub leftover : Request → Option Block
leftover (call f c p r i) = none
leftover r = some (task (task_of r))

abbrev pub is_return : Request → Bool
is_return return_here = true
is_return _ = false

module _ {W : Type 0} ⦃vm : Vm W⦄ ⦃ffi : Ffi W⦄ where
  -- A round that served the request `r` of the task at `t`.
  pub record Served (s s' : State W) (w q semaphore h t : Ptr) (cells : Cells) (r : Request)
      (rs : List Request) : Type 0 where
    pub world : s'.world ≡ effect r s.world
    pub ready : IsReady s' w q semaphore h cells rs
    pub counts :
        (p n : ℕ)
        → p ≢ h
        → (s.heap).block p ≡ some (sem n)
        → (s'.heap).block p ≡ some (sem (n + signals p (r ∷ [])))
    pub gone : (s'.heap).block t ≡ leftover r
    pub beside : Besides s s'
    pub kept : KeepsWorker s s' w

-- What holds at `now`, when a round has taken the task at `t` for the request `r`.
pub record Begun {W : Type 0} (s now : State W) (w q semaphore h t : Ptr) (cells : Cells)
    (r : Request) (rs : List Request) : Type 0 where
  pub next_call : worker_next_call w s ≡ ok t now
  pub world : now.world ≡ s.world
  pub ne_null : t ≢ null
  pub alone : among t cells ≡ false
  pub at_task : (now.heap).block t ≡ some (task (task_of r))
  pub this : Worker
  pub at_worker : (now.heap).block w ≡ some (worker this)
  pub task_queue : this.task_queue ≡ q
  pub worker_ne_null : w ≢ null
  pub channel : IsChannel now q semaphore h cells
  pub can : CanSignal now h (suc (length rs)) r
  pub tasks : AreTasks now h (suc (length rs)) cells rs
  pub beside : Besides s now
  pub kept : KeepsWorker s now w
  pub counts :
      (p n : ℕ) → p ≢ h → (s.heap).block p ≡ some (sem n) → (now.heap).block p ≡ some (sem n)

module _ {W : Type 0} (w q semaphore h a t : Ptr) (cells : Cells) (r : Request) (rs : List Request)
    (s : State W) where
  taken-call :
      IsReady s w q semaphore h ((a, t) ∷ cells) (r ∷ rs)
      → worker_next_call w s ≡ ok t (taken q semaphore h a t cells s)
  unfolding worker_next_call
  taken-call is =
      rw (load-ok s w (worker is.this) is.ne_null is.shape as_worker is.this refl, is.task_queue)
        (take-cons q semaphore h a t cells s is.channel)

  pub begin :
      IsReady s w q semaphore h ((a, t) ∷ cells) (r ∷ rs)
      → Begun s (taken q semaphore h a t cells s) w q semaphore h t cells r rs
  begin is = record {
    next_call = taken-call is;
    world = refl;
    ne_null = is.tasks.0;
    alone = is.tasks.3;
    at_task =
        stays q semaphore h a t cells s is.channel t (task (task_of r)) is.tasks.1 tt (λ n d. cc);
    this = is.this;
    at_worker =
        stays q semaphore h a t cells s is.channel w (worker is.this) is.shape tt (λ n d. cc);
    task_queue = is.task_queue;
    worker_ne_null = is.ne_null;
    channel = taken-IsChannel q semaphore h a t cells s is.channel;
    can = CanSignal-Kept s (taken q semaphore h a t cells s) h room room cells r kept is.tasks.2;
    tasks = AreTasks-Kept s (taken q semaphore h a t cells s) h room room cells rs kept is.tasks.4;
    kept = λ x e. stays q semaphore h a t cells s is.channel w (worker x) e tt (λ n d. cc);
    beside = λ p x i e.
        stays q semaphore h a t cells s is.channel p x e (IsOther-IsBeside (some x) i)
          (beside-ne_sem x i);
    counts = λ p n p_h e. taken-other q semaphore h a t cells s p (sem n) is.channel e tt p_h;
  }
    where
      room : ℕ
      room = suc (length rs)

      kept : Kept s (taken q semaphore h a t cells s) h room room cells
      kept = taken-Kept q semaphore h a t cells s is.channel room

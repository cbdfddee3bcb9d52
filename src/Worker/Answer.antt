-- ===== src/Worker/Answer.antt =====
-- What the image does about a callback of a worker: it hands the worker calls, and then returns.
use threaded_ffi_plugin.Prelude.{
  ℕ, suc, ◌+◌, ◌*◌, ◌≤◌, ◌≡◌, ◌≢◌, refl, sym, ◌∙◌, some, List, ◌∷◌, [], ◌++◌, map, arith, length,
  length-append, length-map,
}
use threaded_ffi_plugin.Machine.{Ptr, null, CallbackInvocation, invocation, State, Cmd, ok, ◌>>◌}
use threaded_ffi_plugin.Host.{Vm}
use threaded_ffi_plugin.Semaphores.{sem_value_max}
use threaded_ffi_plugin.Semaphores.Wait.{IsPlatform}
use threaded_ffi_plugin.Queue.Cells.{Cells}
use threaded_ffi_plugin.Worker.{worker_callback_return}
use threaded_ffi_plugin.Worker.Tasks.{
  Request, call, return_to, return_here, task_of, CanSignal, AreTasks, IsReady,
}
use threaded_ffi_plugin.Worker.Serve.{IsPlatform-moved}
use threaded_ffi_plugin.Worker.Frames.{IsReady-thread, CanSignal-Stays, AreTasks-Stays}
use threaded_ffi_plugin.Worker.Handed.{Added}
use threaded_ffi_plugin.Worker.Calls.{
  Call, request, dispatch_calls, dispatch_calls-Added, Added-Added,
}
use threaded_ffi_plugin.Worker.Return.{with_payload, callback_return-Added}

-- a function of the plugin on the thread `t`
abbrev pub on_thread : {W A : Type 0} → ℕ → Cmd W A → Cmd W A
on_thread t m s = m (record s { thread = t })

module _ {W : Type 0} (s s' : State W) (w q semaphore h : Ptr) (room used : ℕ) (rs : List Request)
    (a : Added s s' w q semaphore h room used rs) where
  pub IsPlatform-Added : (p r n : ℕ) → r ≢ h → IsPlatform s p r n → IsPlatform s' p r n
  IsPlatform-Added p r n r_h is =
      IsPlatform-moved s s' p r n n is (a.beside p _ tt is.shape ∙ sym is.shape)
        (a.semaphores r n r_h is.counts)

  CanSignal-Added : (r : Request) → CanSignal s h room r → CanSignal s' h room r
  CanSignal-Added (call f c p r i) can = tt
  CanSignal-Added return_here can = tt
  CanSignal-Added (return_to p r) (n, is, r_h, fits) = (n, IsPlatform-Added p r n r_h is, r_h, fits)

-- On which thread it began does not matter.
Added-thread :
    {W : Type 0} (s s' : State W) (t : ℕ) (w q semaphore h : Ptr) (room used : ℕ)
    (rs : List Request)
    → Added (record s { thread = t }) s' w q semaphore h room used rs
    → Added s s' w q semaphore h room used rs
Added-thread s s' t w q semaphore h room used rs a = record {
  cells = a.cells;
  ready = a.ready;
  tasks = a.tasks;
  world = a.world;
  budget = a.budget;
  beside = a.beside;
  this = a.this;
  semaphores = a.semaphores;
}

-- the calls, and behind them the return of the invocation at `i`
abbrev pub answer : {W : Type 0} ⦃vm : Vm W⦄ (w i : Ptr) → ℕ → List Call → Cmd W (Unit {0})
answer w i t cs = on_thread t (dispatch_calls w cs >> worker_callback_return w i)

module _ {W : Type 0} ⦃vm : Vm W⦄ (w q semaphore h i : Ptr) (x : CallbackInvocation) (payload : Ptr)
    (r : Request) (room : ℕ) (t : ℕ) (cs : List Call) where
  pub answer-Added :
      (cells : Cells) (rs : List Request) (s : State W)
      → IsReady s w q semaphore h cells rs
      → AreTasks s h room cells rs
      → CanSignal s h room r
      → length rs + suc (length cs) ≤ room
      → room ≤ sem_value_max
      → 2 * suc (length cs) ≤ (s.heap).budget
      → i ≢ null
      → (s.heap).block i ≡ some (invocation (with_payload x payload))
      → (task_of r).callback_semaphore ≡ some payload
      → (s' : State W) × (answer w i t cs s ≡ ok tt s')
        × Added s s' w q semaphore h room (2 * suc (length cs)) ((rs ++ map request cs) ++ r ∷ [])
  answer-Added cells rs s is tasks can fits room_max memory real at wanted =
      let s0 : State W = record s { thread = t } in
      let is0 = IsReady-thread s t w q semaphore h cells rs is in
      let tasks0 = AreTasks-Stays s s0 (λ p y z e. e) h room room cells rs (omega arith) tasks in
      let (s1, e1, a1) =
        dispatch_calls-Added w q semaphore h room room_max cs cells rs s0 is0 tasks0 (omega arith)
          (omega (arith, memory)) in
      let can1 =
        CanSignal-Added s0 s1 w q semaphore h room _ _ a1 r
          (CanSignal-Stays s s0 (λ p y z e. e) h room room r (omega arith) can) in
      let (s2, e2, a2) =
        callback_return-Added w q semaphore h a1.cells _ s1 a1.ready r i (with_payload x payload)
          payload room real (a1.beside i _ tt at) refl wanted a1.tasks can1
          (omega (arith, length-append rs (map request cs), length-map request cs)) room_max
          (omega (arith, a1.budget, memory)) in
      (
        s2,
        rw e1 e2,
        Added-thread s s2 t w q semaphore h room _ _
            (Added-Added w q semaphore h room s0 s1 s2 _ 2 _ _ _ (omega arith) a1 a2),
      )

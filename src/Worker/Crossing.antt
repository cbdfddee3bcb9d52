-- ===== src/Worker/Crossing.antt =====
-- A callback of a worker that comes from another thread than the worker's own.
use threaded_ffi_plugin.Prelude.{
  ℕ, suc, ◌+◌, ◌*◌, ◌≤◌, ◌<◌, ◌≡◌, ◌≢◌, refl, sym, ap, ◌∙◌, false, none, some, List, [], ◌∷◌, ◌++◌,
  map, arith, length,
}
use threaded_ffi_plugin.Machine.{
  Ptr, null, Block, CallbackInvocation, Worker, worker, invocation, State, ok, blocked, ◌>>◌,
}
use threaded_ffi_plugin.Host.{Vm, Ffi}
use threaded_ffi_plugin.Semaphores.{sem_value_max}
use threaded_ffi_plugin.Semaphores.Wait.{IsPlatform, settled}
use threaded_ffi_plugin.Queue.Cells.{Cells}
use threaded_ffi_plugin.Worker.{worker_callback_prepare, worker_enter_callback, worker_run}
use threaded_ffi_plugin.Worker.Tasks.{Request, return_to, AreTasks, IsReady, effects, returns}
use threaded_ffi_plugin.Worker.Frames.{
  IsReady-thread, IsPlatform-thread, AreTasks-Stays, IsReady-Stays,
}
use threaded_ffi_plugin.Worker.Calls.{Call, request}
use threaded_ffi_plugin.Worker.Return.{with_payload}
use threaded_ffi_plugin.Worker.Answer.{on_thread, answer, answer-Added, IsPlatform-Added}
use threaded_ffi_plugin.Worker.Prepare.{
  awaiting, awaiting-IsPlatform, awaiting-Stays, awaiting-IsHeap, prepare-other,
}
use threaded_ffi_plugin.Worker.Await.{signals-fresh, enter-waits, enter-resumes}
use threaded_ffi_plugin.Worker.Waking.{answered-run, freed-IsReady}

module _ {W : Type 0} ⦃vm : Vm W⦄ ⦃ffi : Ffi W⦄ (w q semaphore h i : Ptr) (x : CallbackInvocation)
    (this : Worker) (cs : List Call) (t o v fuel : ℕ) (cells : Cells) (rs : List Request)
    (s : State W) (is : IsReady s w q semaphore h cells rs) where
  abbrev n : Ptr
  n = (s.heap).next

  abbrev room : ℕ
  room = length rs + suc (length cs)

  old :
      (p : Ptr) (y : Block)
      → (s.heap).block p ≡ some y
      → (p ≢ n) × (p ≢ n + 1) × (n ≢ p) × (n + 1 ≢ p)
  old p y e =
      let heap = is.channel.is_heap in
      let p_n : p ≢ n = λ j. cc (e, heap.fresh n (omega arith), ap (s.heap).block j) in
      let p_n1 : p ≢ n + 1 = λ j. cc (e, heap.fresh (n + 1) (omega arith), ap (s.heap).block j) in
      (p_n, p_n1, λ j. p_n (sym j), λ j. p_n1 (sym j))

  -- The invocation has a new semaphore, and the image has answered.
  asked :
      (s.heap).block w ≡ some (worker this)
      → this.self_thread ≢ t
      → i ≢ null
      → (s.heap).block i ≡ some (invocation x)
      → AreTasks s h room cells rs
      → room ≤ sem_value_max
      → 2 * suc (suc (length cs)) ≤ (s.heap).budget
      → (a : State W) × ((on_thread t (worker_callback_prepare w i) >> answer w i v cs) s ≡ ok tt a)
        × (a.world ≡ s.world)
        × IsPlatform a n (n + 1) 0
        × ((a.heap).block i ≡ some (invocation (with_payload x n)))
        × (cells' : Cells) × IsReady a w q semaphore h cells'
            ((rs ++ map request cs) ++ return_to n (n + 1) ∷ [])
  asked at_w other real at tasks small memory =
      let heap = is.channel.is_heap in
      let s0 : State W = record s { thread = t } in
      let s1 = awaiting w i this x s0 is.ne_null at_w real at in
      let platform = awaiting-IsPlatform w i this x s0 is.ne_null at_w real at heap in
      let stays = awaiting-Stays w i this x s0 is.ne_null at_w real at heap in
      let heap1 = awaiting-IsHeap w i this x s0 is.ne_null at_w real at heap in
      let (_, _, _, n1_h) = old h _ is.channel.is_platform.counts in
      let tasks1 = AreTasks-Stays s s1 stays h room room cells rs (omega arith) tasks in
      let at_i : (s1.heap).block i ≡ some (invocation (with_payload x n)) = ground arith in
      let (a, e, added) =
        answer-Added w q semaphore h i x n (return_to n (n + 1)) room v cs cells rs s1
          (IsReady-Stays s s1 stays w q semaphore h cells rs heap1 is) tasks1
          (0, platform, n1_h, omega (arith, small)) (omega arith) small (omega (arith, memory)) real
          at_i refl in
      (
        a,
        rw (prepare-other w i this x s0 is.ne_null at_w real at heap other (omega (arith, memory)))
            e,
        added.world,
        IsPlatform-Added s1 a w q semaphore h room _ _ added n (n + 1) 0 n1_h platform,
        added.beside i _ tt at_i,
        added.cells,
        added.ready,
      )

  -- A callback from another thread than the worker's own: it waits on a semaphore of its own until the
  -- worker has served the requests before its return, the calls of the image among them, each once
  -- and in order; the worker's thread does not end its loop for it. Then the wait ends, both blocks
  -- of the semaphore are given back, and the queue is empty. No return to the worker's own thread
  -- may be in the queue, and the memory and the counts of the semaphores must suffice.
  pub callback_crosses :
      (s.heap).block w ≡ some (worker this)
      → this.self_thread ≢ t
      → i ≢ null
      → (s.heap).block i ≡ some (invocation x)
      → returns rs ≡ false
      → AreTasks s h (length rs + suc (length cs)) cells rs
      → length rs + suc (length cs) ≤ sem_value_max
      → 2 * suc (suc (length cs)) ≤ (s.heap).budget
      → length rs + suc (length cs) < fuel
      → (a u s' : State W) × ((on_thread t (worker_callback_prepare w i) >> answer w i v cs) s
          ≡ ok tt a)
        × (on_thread t (worker_enter_callback fuel w i) a
            ≡ blocked (settled (record a { thread = t })))
        × (on_thread o (worker_run fuel w) a ≡ blocked u)
        × (on_thread t (worker_enter_callback fuel w i) u ≡ ok tt s')
        × (s'.world ≡ effects (rs ++ map request cs) s.world)
        × IsReady s' w q semaphore h [] []
        × ((s'.heap).block (s.heap).next ≡ none)
        × ((s'.heap).block ((s.heap).next + 1) ≡ none)
  callback_crosses at_w other real at ends tasks small memory more =
      let (a, e_a, world_a, waiting, at_i, cells', ready_a) =
        asked at_w other real at tasks small memory in
      let (w_n, w_n1, _, _) = old w _ is.shape in
      let (_, _, n_s, n1_s) = old semaphore _ is.channel.is_platform.shape in
      let (_, _, n_h, n1_h) = old h _ is.channel.is_platform.counts in
      let (u, e_u, world, ready, signalled, beside) =
        answered-run w q semaphore h n (n + 1) cs fuel cells' rs (record a { thread = o })
          (IsReady-thread a o w q semaphore h cells' _ ready_a) ends
          (signals-fresh s h room (n + 1) cells rs (is.channel.is_heap.fresh (n + 1) (omega arith))
            tasks)
          (IsPlatform-thread a o n (n + 1) 0 waiting) n1_h more in
      let u_t : State W = record u { thread = t } in
      let signalled_t = IsPlatform-thread u t n (n + 1) 1 signalled in
      (
        a,
        u,
        _,
        e_a,
        enter-waits fuel w i n (n + 1) x (record a { thread = t }) real at_i
            (IsPlatform-thread a t n (n + 1) 0 waiting),
        e_u,
        enter-resumes fuel w i n (n + 1) x u_t real (beside i _ tt at_i) signalled_t,
        world ∙ ap (effects (rs ++ map request cs)) world_a,
        freed-IsReady u_t w q semaphore h n (n + 1) (IsReady-thread u t w q semaphore h [] [] ready)
            signalled_t w_n w_n1 n_s n1_s n_h n1_h,
        ground arith,
        ground arith,
      )

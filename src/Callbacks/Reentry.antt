-- ===== src/Callbacks/Reentry.antt =====
-- A callback that a foreign function makes on the thread of its worker, from `callbackFrontend` to its end.
use threaded_ffi_plugin.Prelude.{
  ℕ, suc, ◌+◌, ◌*◌, ◌≤◌, ◌<◌, ◌≡◌, ◌≢◌, refl, ap, ◌∙◌, false, none, some, List, [], ◌∷◌, ◌++◌, map,
  arith, length, length-append, length-map,
}
use threaded_ffi_plugin.Machine.{
  Ptr, null, Callback, CallbackInvocation, Worker, callback, worker, invocation, worker_enter,
  as_callback, as_runner, State, Cmd, ok, ◌>>=◌, ◌>>◌, write, free,
}
use threaded_ffi_plugin.Machine.Access.{load-ok, free-ok}
use threaded_ffi_plugin.Host.{Vm, Ffi}
use threaded_ffi_plugin.Semaphores.{sem_value_max}
use threaded_ffi_plugin.Queue.Cells.{Cells}
use threaded_ffi_plugin.Queue.Contents.{update_ne}
use threaded_ffi_plugin.Queue.Frames.{IsHeap-write}
use threaded_ffi_plugin.Worker.{worker_enter_callback}
use threaded_ffi_plugin.Worker.Tasks.{Request, return_here, IsReady, effects, returns}
use threaded_ffi_plugin.Worker.Frames.{IsReady-thread, Stays-write, IsReady-Stays}
use threaded_ffi_plugin.Worker.Calls.{Call, request, dispatch_calls, dispatch_calls-Added}
use threaded_ffi_plugin.Worker.Return.{with_payload}
use threaded_ffi_plugin.Worker.Answer.{on_thread}
use threaded_ffi_plugin.Worker.Reentry.{answered-enter}
use threaded_ffi_plugin.Callbacks.{
  callback_frontend, callback_frontend_wait, call_enter, return_invocation,
  queue_next_pending_callback,
}
use threaded_ffi_plugin.Callbacks.Stack.{answered}
use threaded_ffi_plugin.Callbacks.OnWorker.{CanCall, Asked, stacked, frontend-Asked}
use threaded_ffi_plugin.Callbacks.Invocation.{invocation_of}
use threaded_ffi_plugin.Callbacks.Read.{read-Asked}
use threaded_ffi_plugin.Callbacks.Answered.{return_invocation-worker}

-- A foreign function calls the callback at `cb`; on the thread `v` the virtual machine reads the
-- invocation that is pending, and the image hands the worker the calls and returns from that
-- invocation; and the thread `t` that was called goes on.
abbrev pub called_back :
    {W : Type 0} ⦃vm : Vm W⦄ ⦃ffi : Ffi W⦄ (fuel t v : ℕ) (cb ret args w : Ptr)
    → List Call
    → Cmd W (Unit {0})
called_back fuel t v cb ret args w cs = callback_frontend cb ret args >>= λ i.
    on_thread v (queue_next_pending_callback >>= λ j. dispatch_calls w cs >> return_invocation w j)
    >> on_thread t (callback_frontend_wait fuel cb i)

module _ {W : Type 0} ⦃vm : Vm W⦄ ⦃ffi : Ffi W⦄ where
  entered :
      (fuel : ℕ) (w i : Ptr) (s s' : State W)
      → worker_enter_callback fuel w i s ≡ ok tt s'
      → call_enter fuel worker_enter w i s ≡ ok tt s'
  unfolding call_enter
  entered fuel w i s s' e = e

  -- The rest of `callbackFrontend`, when the wait of the worker comes back.
  wait-entered :
      (fuel : ℕ) (cb w i : Ptr) (c : Callback) (x : Worker) (s s' : State W)
      → cb ≢ null
      → w ≢ null
      → (s.heap).block cb ≡ some (callback c)
      → c.runner ≡ some w
      → (s.heap).block w ≡ some (worker x)
      → (x.runner).callback_enter_function ≡ worker_enter
      → worker_enter_callback fuel w i s ≡ ok tt s'
      → free i s' ≡ ok tt (write s' i none)
      → callback_frontend_wait fuel cb i s ≡ ok tt (write s' i none)
  unfolding callback_frontend_wait
  wait-entered fuel cb w i c x s s' cb_real w_real at_cb runs at_w enters e freed =
      rw
        (
          load-ok s cb (callback c) cb_real at_cb as_callback c refl,
          runs,
          load-ok s w (worker x) w_real at_w as_runner _ refl,
          ap (λ f. call_enter fuel f w i s) enters ∙ entered fuel w i s s' e,
        )
        freed

module _ {W : Type 0} ⦃vm : Vm W⦄ (cb ret args w q semaphore h ps index : Ptr) (c : Callback)
    (x : Worker) (cells : Cells) (rs : List Request) (cs : List Call) (s : State W) where
  abbrev i : Ptr
  i = (s.heap).next

  abbrev Can : Type 0
  Can = CanCall cb ret args w q semaphore h ps index c x cells [] rs (length rs + suc (length cs)) s

  -- the invocation that the foreign call has made
  abbrev d : CallbackInvocation
  d = with_payload (invocation_of cb ret args (x.runner).callback_stack none) null

  -- What holds when the image has handed over the calls and has returned from the callback.
  record Replied (t : State W) : Type 0 where
    cells' : Cells
    ready : IsReady t w q semaphore h cells' ((rs ++ map request cs) ++ return_here ∷ [])
    at_worker : (t.heap).block w ≡ some (worker (stacked (stacked x i) (x.runner).callback_stack))
    at_invocation : (t.heap).block i ≡ some (invocation d)
    at_callback : (t.heap).block cb ≡ some (callback c)
    world : t.world ≡ answered vm.true_object (vm.signal_semaphore_with_index index s.world)

  module _ (can : Can) (a : State W)
      (asked : Asked cb ret args w q semaphore h ps index c x cells [] rs
        (length rs + suc (length cs))
        s
        a) where
    replies :
        length rs + suc (length cs) ≤ sem_value_max
        → 2 * suc (length cs) < (s.heap).budget
        → (t : State W) × ((dispatch_calls w cs >> return_invocation w i) a ≡ ok tt t) × Replied t
    replies small memory =
        let room = length rs + suc (length cs) in
        let y = stacked x i in
        let u = stacked y (x.runner).callback_stack in
        let (t1, e1, a1) =
          dispatch_calls-Added w q semaphore h room small cs cells rs a asked.ready asked.tasks
            (omega arith) (omega (arith, memory, asked.budget)) in
        let at_w = a1.this y asked.at_worker in
        let at_i = a1.beside i _ tt asked.at_invocation in
        let at_cb = a1.beside cb _ tt asked.at_callback in
        let (t2, e2, a2) =
          return_invocation-worker w q semaphore h i y d a1.cells _ room t1 a1.ready a1.tasks at_w
            refl can.exits asked.real at_i
            (omega (arith, length-append rs (map request cs), length-map request cs)) small
            (omega (arith, a1.budget, memory, asked.budget)) in
        let w_i : i ≢ w = λ j. cc (at_w, at_i, ap (t1.heap).block j) in
        let w_cb : cb ≢ w = λ j. cc (at_w, at_cb, ap (t1.heap).block j) in
        (
          t2,
          rw e1 e2,
          record {
            cells' = a2.cells;
            ready = a2.ready;
            at_worker = a2.this u (ground arith);
            at_invocation =
                a2.beside i _ tt (update_ne (t1.heap).block w (some (worker u)) i w_i ∙ at_i);
            at_callback =
                a2.beside cb _ tt (update_ne (t1.heap).block w (some (worker u)) cb w_cb ∙ at_cb);
            world = a2.world ∙ ap (answered vm.true_object) (a1.world ∙ asked.world);
          },
        )

module _ {W : Type 0} ⦃vm : Vm W⦄ ⦃ffi : Ffi W⦄ (cb ret args w q semaphore h ps index : Ptr)
    (c : Callback) (x : Worker) (cells : Cells) (rs : List Request) (cs : List Call)
    (s : State W) where
  abbrev Ended : State W → Type 0
  Ended s' =
      (s'.world
        ≡ effects (rs ++ map request cs)
            (answered vm.true_object (vm.signal_semaphore_with_index index s.world)))
      × IsReady s' w q semaphore h [] []
      × ((s'.heap).block (s.heap).next ≡ none)
      × ((y : Worker) × ((s'.heap).block w ≡ some (worker y)) × (y.runner ≡ x.runner))

  goes_on :
      (can : Can cb ret args w q semaphore h ps index c x cells rs cs s) (t : State W)
      → (s.heap).next ≢ null
      → Replied cb ret args w q semaphore h ps index c x cells rs cs s t
      → (fuel : ℕ) → (x.runner).callback_enter_function ≡ worker_enter
      → returns rs ≡ false
      → length rs + suc (length cs) < fuel
      → (s' : State W) × (on_thread s.thread (callback_frontend_wait fuel cb (s.heap).next) t
          ≡ ok tt s')
        × Ended s'
  goes_on can t real replied fuel enters ends more =
      let i = (s.heap).next in
      let t3 : State W = record t { thread = s.thread } in
      let u = stacked (stacked x i) (x.runner).callback_stack in
      let d = invocation_of cb ret args (x.runner).callback_stack none in
      let (s', e3, world, ready, at_end, stays) =
        answered-enter w q semaphore h i d cs fuel replied.cells' rs t3
          (IsReady-thread t s.thread w q semaphore h replied.cells' _ replied.ready) ends more real
          replied.at_invocation in
      let done : State W = write s' i none in
      let keeps = Stays-write s' i none (rw at_end λ b. b) in
      let (z, at_z, same) = stays u replied.at_worker in
      (
        done,
        wait-entered fuel cb w i c u t3 s' can.ne_null can.ready.ne_null replied.at_callback
            can.runner replied.at_worker enters e3 (free-ok s' i _ real at_end),
        (
          world ∙ ap (effects (rs ++ map request cs)) replied.world,
          IsReady-Stays s' done keeps w q semaphore h [] []
              (IsHeap-write s' i none _ ready.channel.is_heap at_end) ready,
          ground arith,
          (z, keeps w _ tt at_z, same),
        ),
      )

  -- A callback on the thread of its worker, from `callbackFrontend` to its end, where no other callback
  -- is pending: the virtual machine is signalled once and reads the invocation; however many calls the
  -- image then hands the worker before it returns with `primitiveCallbackReturn`, the image is answered
  -- `true`, and the worker's thread serves what is in its queue, those calls last, each once and in
  -- order, and goes on behind the callback, with its queue empty, the invocation gone, and the runner
  -- with the stack of invocations that it had before. The worker, its tasks and the two queues are well
  -- formed and the queues are apart, no earlier return is in the worker's queue, and the memory, the
  -- counts of the semaphores and the fuel suffice.
  pub callback_frontend_reenters :
      CanCall cb ret args w q semaphore h ps index c x cells [] rs (length rs + suc (length cs)) s
      → (v fuel : ℕ) → (x.runner).callback_enter_function ≡ worker_enter
      → returns rs ≡ false
      → length rs + suc (length cs) ≤ sem_value_max
      → 2 * suc (length cs) < (s.heap).budget
      → length rs + suc (length cs) < fuel
      → (s' : State W) × (called_back fuel s.thread v cb ret args w cs s ≡ ok tt s')
        × (s'.world
            ≡ effects
                (rs ++ map request cs)
                (answered vm.true_object (vm.signal_semaphore_with_index index s.world)))
        × IsReady s' w q semaphore h [] []
        × ((s'.heap).block (s.heap).next ≡ none)
        × ((y : Worker) × ((s'.heap).block w ≡ some (worker y)) × (y.runner ≡ x.runner))
  callback_frontend_reenters can v fuel enters ends small memory more =
      let (a, e, asked, pending) =
        frontend-Asked cb ret args w q semaphore h ps index c x cells [] rs _ s can in
      let (b, e0, found) =
        read-Asked cb ret args w q semaphore h ps index c x cells rs _ s can a v asked pending in
      let (t, e1, replied) =
        replies cb ret args w q semaphore h ps index c x cells rs cs s can b found small memory in
      let (s', e2, (world, ready, gone, runner)) =
        goes_on can t asked.real replied fuel enters ends more in
      (s', rw (e, e0, e1) e2, world, ready, gone, runner)

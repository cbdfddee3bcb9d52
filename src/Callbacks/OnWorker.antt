-- ===== src/Callbacks/OnWorker.antt =====
-- The call of a callback whose runner is a worker, on the worker's own thread.
use threaded_ffi_plugin.Prelude.{
  ℕ, ◌+◌, ◌-◌, ◌∷◌, [], ◌++◌, ◌≡◌, ◌≢◌, refl, ap, ◌∙◌, none, some, List, arith,
}
use threaded_ffi_plugin.Machine.{
  Ptr, null, Block, Callback, CallbackInvocation, Worker, callback, worker, invocation,
  worker_prepare, worker_return, as_callback, as_runner, as_runner_block, State, ok, write, local,
}
use threaded_ffi_plugin.Machine.Access.{load-ok, store-ok}
use threaded_ffi_plugin.Host.{Vm}
use threaded_ffi_plugin.Queue.Cells.{Cells, IsHeap}
use threaded_ffi_plugin.Queue.Contents.{update_ne, IsOther}
use threaded_ffi_plugin.Queue.Frames.{IsHeap-write}
use threaded_ffi_plugin.Queue.Pending.{
  IsPending, announced, put-announced, announced-IsPending, IsPending-write,
}
use threaded_ffi_plugin.Worker.Tasks.{Request, AreTasks, IsReady}
use threaded_ffi_plugin.Worker.Serve.{AreTasks-Kept}
use threaded_ffi_plugin.Worker.Frames.{
  Stays, Stays-allocated, Stays-write, AreTasks-Stays, IsReady-Stays,
}
use threaded_ffi_plugin.Worker.Run.{written-Kept, IsReady-written}
use threaded_ffi_plugin.Worker.Return.{with_payload}
use threaded_ffi_plugin.Worker.Prepare.{prepare-own}
use threaded_ffi_plugin.Callbacks.{callback_frontend, call_prepare}
use threaded_ffi_plugin.Callbacks.Invocation.{
  placed, invocation_of, IsHeap-placed, IsPending-placed,
}
use threaded_ffi_plugin.Callbacks.Apart.{AreApart, told-IsReady, told-Kept, told-other}

-- the worker `x` with `p` on top of its stack of invocations
abbrev pub stacked : Worker → Ptr → Worker
stacked x p = record x { runner = record (x.runner) { callback_stack = p } }

module _ {W : Type 0} ⦃vm : Vm W⦄ (cb ret args w q semaphore h ps index : Ptr) (c : Callback)
    (x : Worker) (cells pending : Cells) (rs : List Request) (room : ℕ) (s : State W) where
  -- What has to hold when a foreign function calls the callback at `cb` on the thread of its worker.
  pub record CanCall : Type 0 where
    pub ne_null : cb ≢ null
    pub shape : (s.heap).block cb ≡ some (callback c)
    pub runner : c.runner ≡ some w
    pub at : (s.heap).block w ≡ some (worker x)
    pub prepares : (x.runner).callback_prepare_invocation ≡ worker_prepare
    pub exits : (x.runner).callback_exit_function ≡ worker_return
    pub own : x.self_thread ≡ s.thread
    pub ready : IsReady s w q semaphore h cells rs
    pub tasks : AreTasks s h room cells rs
    pub is_pending : IsPending s s.callback_queue ps index pending
    pub apart : AreApart cells pending
    pub queues : q ≢ s.callback_queue
    pub memory : (s.heap).budget ≢ 0

  abbrev pub i : Ptr
  i = (s.heap).next

  abbrev pub called : CallbackInvocation
  called = invocation_of cb ret args (x.runner).callback_stack none

  abbrev s1 : State W
  s1 = placed s (invocation called)

  abbrev s2 : State W
  s2 = write s1 w (some (worker (stacked x i)))

  abbrev s3 : State W
  s3 = write s2 i (some (invocation (record called { payload = some null })))

  abbrev asked : State W
  asked = announced s.callback_queue ps index i pending s3

  -- What holds when the callback has been handed to the image.
  pub record Asked (a : State W) : Type 0 where
    pub real : (s.heap).next ≢ null
    pub ready : IsReady a w q semaphore h cells rs
    pub tasks : AreTasks a h room cells rs
    pub at_worker : (a.heap).block w ≡ some (worker (stacked x (s.heap).next))
    pub at_invocation : (a.heap).block (s.heap).next ≡ some (invocation (with_payload called null))
    pub at_callback : (a.heap).block cb ≡ some (callback c)
    pub world : a.world ≡ vm.signal_semaphore_with_index index s.world
    pub budget : (a.heap).budget ≡ (s.heap).budget - 1
    pub queue : a.callback_queue ≡ s.callback_queue

  module _ (can : CanCall) where
    heap : IsHeap s.heap
    heap = can.ready.channel.is_heap

    fresh : (s.heap).block i ≡ none
    fresh = heap.fresh i (omega arith)

    real : i ≢ null
    real = omega (arith, heap.next_pos)

    w_i : w ≢ i
    w_i j = cc (can.at, fresh, ap (s.heap).block j)

    s1_at : (s1.heap).block w ≡ some (worker x)
    s1_at = update_ne (s.heap).block i _ w w_i ∙ can.at

    s1-IsHeap : IsHeap s1.heap
    s1-IsHeap = IsHeap-placed s (invocation called) heap

    s1-Stays : Stays s s1
    s1-Stays = Stays-allocated s (some (invocation called)) heap

    s2_at : (s2.heap).block i ≡ some (invocation called)
    s2_at = ground (arith, w_i)

    s3-Stays : Stays s2 s3
    s3-Stays = Stays-write s2 i _ (rw s2_at λ b. b)

    s3-IsHeap : IsHeap s3.heap
    s3-IsHeap = IsHeap-write s2 i _ _ (IsHeap-write s1 w _ _ s1-IsHeap s1_at) s2_at

    x_queue : x.task_queue ≡ q
    x_queue = cc (can.at, can.ready.shape, can.ready.task_queue)

    s3-IsReady : IsReady s3 w q semaphore h cells rs
    s3-IsReady = IsReady-Stays s2 s3 s3-Stays w q semaphore h cells rs s3-IsHeap (
        IsReady-written s1 w q semaphore h cells rs x (stacked x i) s1_at x_queue
          (IsReady-Stays s s1 s1-Stays w q semaphore h cells rs s1-IsHeap can.ready))

    s3-AreTasks : AreTasks s3 h room cells rs
    s3-AreTasks = AreTasks-Stays s2 s3 s3-Stays h room room cells rs (omega arith) (
        AreTasks-Kept s1 s2 h room room cells rs
          (written-Kept s1 h room w x (stacked x i) cells s1_at)
          (AreTasks-Stays s s1 s1-Stays h room room cells rs (omega arith) can.tasks))

    s3-IsPending : IsPending s3 s.callback_queue ps index pending
    s3-IsPending =
        let q' = s.callback_queue in
        let is = can.is_pending in
        let new = invocation called in
        let p1 = IsPending-placed q' ps index pending s new is in
        let w_ps : w ≢ ps = λ j. cc (can.at, is.is_pharo.shape, ap (s.heap).block j) in
        let i_ps : i ≢ ps = λ j. cc (fresh, is.is_pharo.shape, ap (s.heap).block j) in
        IsPending-write q' ps index pending s2 i new _
          (IsPending-write q' ps index pending s1 w (worker x) _ p1 s1_at tt w_ps) s2_at tt i_ps

    asked-IsReady : IsReady asked w q semaphore h cells rs
    asked-IsReady =
        told-IsReady w q semaphore h s.callback_queue ps index i cells pending rs s3 can.apart
          can.queues s3-IsPending s3-IsReady

    asked-AreTasks : AreTasks asked h room cells rs
    asked-AreTasks =
        AreTasks-Kept s3 asked h room room cells rs
          (told-Kept w q semaphore h s.callback_queue ps index i cells pending rs s3 can.apart
            can.queues s3-IsPending room)
          s3-AreTasks

    asked_other :
        (p : Ptr) (b : Block)
        → (s3.heap).block p ≡ some b
        → IsOther (some b)
        → (asked.heap).block p ≡ some b
    asked_other =
        told-other w q semaphore h s.callback_queue ps index i cells pending rs s3 can.apart
          can.queues s3-IsPending

    asked_w : (asked.heap).block w ≡ some (worker (stacked x i))
    asked_w = asked_other w _ (ground (arith, w_i)) tt

    asked_i : (asked.heap).block i ≡ some (invocation (with_payload called null))
    asked_i = asked_other i _ (ground arith) tt

    asked_cb : (asked.heap).block cb ≡ some (callback c)
    asked_cb =
        let cb_i : cb ≢ i = λ j. cc (can.shape, fresh, ap (s.heap).block j) in
        let cb_w : cb ≢ w = λ j. cc (can.shape, can.at, ap (s.heap).block j) in
        asked_other cb _ (ground (arith, can.shape, cb_i, cb_w)) tt

    prepared : call_prepare worker_prepare w i s2 ≡ ok tt s3
    unfolding call_prepare
    prepared =
        prepare-own w i (stacked x i) called s2 can.ready.ne_null (ground arith) real s2_at can.own

    frontend-asked : callback_frontend cb ret args s ≡ ok i asked
    unfolding callback_frontend local
    frontend-asked = rw (
      load-ok s cb (callback c) can.ne_null can.shape as_callback c refl,
      can.runner,
      load-ok s w (worker x) can.ready.ne_null can.at as_runner _ refl,
      load-ok s1 w (worker x) can.ready.ne_null s1_at as_runner_block (worker x) refl,
      store-ok s1 w (worker x) can.ready.ne_null s1_at (worker (stacked x i)),
      load-ok s2 w (worker (stacked x i)) can.ready.ne_null (ground arith) as_runner _ refl,
      ap (λ f. call_prepare f w i s2) can.prepares ∙ prepared,
      put-announced s.callback_queue ps index i pending s3 s3-IsPending can.memory,
    )

    -- A foreign call of the callback pushes an invocation without a semaphore on the worker's stack,
    -- puts it at the end of the queue of pending callbacks, and signals the virtual machine once.
    pub frontend-Asked :
        (a : State W) × (callback_frontend cb ret args s ≡ ok (s.heap).next a)
        × Asked a
        × IsPending a a.callback_queue ps index (pending ++ ((s.heap).next + 1, (s.heap).next) ∷ [])
    frontend-Asked = (
      asked,
      frontend-asked,
      record {
        real = real;
        ready = asked-IsReady;
        tasks = asked-AreTasks;
        at_worker = asked_w;
        at_invocation = asked_i;
        at_callback = asked_cb;
        world = refl;
        budget = refl;
        queue = refl;
      },
      announced-IsPending s.callback_queue ps index i pending s3 s3-IsPending,
    )

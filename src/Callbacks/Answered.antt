-- ===== src/Callbacks/Answered.antt =====
-- The return of a callback to the thread of its worker.
use threaded_ffi_plugin.Prelude.{
  ℕ, ◌≤◌, ◌<◌, ◌≡◌, ◌≢◌, refl, ap, ◌∙◌, true, some, List, [], ◌∷◌, ◌++◌, ◌==◌, arith, length,
}
use threaded_ffi_plugin.Machine.{
  Ptr, null, CallbackInvocation, Worker, worker, invocation, worker_return, as_invocation,
  as_runner, as_runner_block, State, ok, write,
}
use threaded_ffi_plugin.Machine.Access.{load-ok, store-ok}
use threaded_ffi_plugin.Host.{Vm}
use threaded_ffi_plugin.Semaphores.{sem_value_max}
use threaded_ffi_plugin.Utils.{primitive_end_return}
use threaded_ffi_plugin.Queue.Cells.{Cells}
use threaded_ffi_plugin.Queue.Contents.{update_ne}
use threaded_ffi_plugin.Worker.{worker_callback_return}
use threaded_ffi_plugin.Worker.Tasks.{Request, return_here, AreTasks, IsReady}
use threaded_ffi_plugin.Worker.Serve.{AreTasks-Kept}
use threaded_ffi_plugin.Worker.Frames.{AreTasks-Stays, IsReady-Stays}
use threaded_ffi_plugin.Worker.Handed.{Added}
use threaded_ffi_plugin.Worker.Return.{with_payload, callback_return-Added}
use threaded_ffi_plugin.Worker.Run.{written-Kept, IsReady-written}
use threaded_ffi_plugin.Callbacks.{return_invocation, call_exit}
use threaded_ffi_plugin.Callbacks.Stack.{answered}
use threaded_ffi_plugin.Callbacks.OnWorker.{stacked}

module _ {W : Type 0} ⦃vm : Vm W⦄ (w q semaphore h i : Ptr) (x : Worker) (v : CallbackInvocation)
    (cells : Cells) (rs : List Request) (room : ℕ) (s : State W) where
  -- The primitive has answered `true`, and the invocation is popped.
  abbrev pub popped : State W
  popped =
      write (record s { world = answered vm.true_object s.world }) w
        (some (worker (stacked x v.previous)))

  exited :
      (t : State W)
      → worker_callback_return w i popped ≡ ok tt t
      → call_exit worker_return w i popped ≡ ok tt t
  unfolding call_exit
  exited t e = e

  -- The innermost invocation of a worker is accepted: `true` is answered, the invocation is popped, and
  -- its return becomes the last request of the worker.
  pub return_invocation-worker :
      IsReady s w q semaphore h cells rs
      → AreTasks s h room cells rs
      → (s.heap).block w ≡ some (worker x)
      → (x.runner).callback_stack ≡ i
      → (x.runner).callback_exit_function ≡ worker_return
      → i ≢ null
      → (s.heap).block i ≡ some (invocation (with_payload v null))
      → length rs < room
      → room ≤ sem_value_max
      → 2 ≤ (s.heap).budget
      → (t : State W) × (return_invocation w i s ≡ ok tt t)
        × Added popped t w q semaphore h room 2 (rs ++ return_here ∷ [])
  unfolding return_invocation primitive_end_return
  return_invocation-worker is tasks at top exits real at_i fits small memory =
      let s1 : State W = record s { world = answered vm.true_object s.world } in
      let y = stacked x v.previous in
      let w_i : i ≢ w = λ j. cc (at, at_i, ap (s.heap).block j) in
      let is1 = IsReady-Stays s s1 (λ p z f e. e) w q semaphore h cells rs is.channel.is_heap is in
      let tasks1 = AreTasks-Stays s s1 (λ p z f e. e) h room room cells rs (omega arith) tasks in
      let is2 =
        IsReady-written s1 w q semaphore h cells rs x y at (cc (at, is.shape, is.task_queue)) is1 in
      let tasks2 =
        AreTasks-Kept s1 popped h room room cells rs (written-Kept s1 h room w x y cells at)
          tasks1 in
      let at_i' : (popped.heap).block i ≡ some (invocation (with_payload v null)) =
        update_ne (s.heap).block w _ i w_i ∙ at_i in
      let (t, e, added) =
        callback_return-Added w q semaphore h cells rs popped is2 return_here i
          (with_payload v null) null room real at_i' refl refl tasks2 tt fits small memory in
      let same : (i == i) ≡ true = ground arith in
      (
        t,
        rw
            (
              load-ok s w (worker x) is.ne_null at as_runner _ refl,
              top,
              same,
              load-ok s1 i (invocation (with_payload v null)) real at_i as_invocation _ refl,
              load-ok s1 w (worker x) is.ne_null at as_runner_block (worker x) refl,
              store-ok s1 w (worker x) is.ne_null at (worker y),
              load-ok popped w (worker y) is.ne_null (ground arith) as_runner _ refl,
            )
            (ap (λ f. call_exit f w i popped) exits ∙ exited t e),
        added,
      )

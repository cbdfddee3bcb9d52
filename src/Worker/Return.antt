-- ===== src/Worker/Return.antt =====
-- `worker_callback_prepare` and `worker_callback_return`: what tells a callback's invocation whether
-- its worker runs on while it waits, and the task that ends the wait.
use threaded_ffi_plugin.Prelude.{
  ℕ, ◌≤◌, ◌<◌, ◌≡◌, ◌≢◌, refl, sym, ap, ◌∙◌, none, some, List, [], ◌∷◌, ◌++◌, arith, length,
}
use threaded_ffi_plugin.Machine.{
  Ptr, null, CallbackInvocation, WorkerTask, callback_return, invocation, task, raw, as_invocation,
  State, ok,
}
use threaded_ffi_plugin.Machine.Access.{allocated, malloc-ok, load-ok, store-ok, write-allocated}
use threaded_ffi_plugin.Host.{Vm}
use threaded_ffi_plugin.Semaphores.{sem_value_max}
use threaded_ffi_plugin.Queue.Cells.{Cells}
use threaded_ffi_plugin.Queue.Contents.{update_ne}
use threaded_ffi_plugin.Worker.{worker_callback_return, worker_task_new_callback, worker_add_call}
use threaded_ffi_plugin.Worker.Tasks.{
  Request, call, return_to, return_here, task_of, CanSignal, AreTasks, IsReady,
}
use threaded_ffi_plugin.Worker.Frames.{AreTasks-length}
use threaded_ffi_plugin.Worker.Handed.{Added, handed, n_real, add_call-handed, handed-Added}

-- the invocation once it knows what its return signals
abbrev pub with_payload : CallbackInvocation → Ptr → CallbackInvocation
with_payload x payload = record x { payload = some payload }

return_task : Ptr → WorkerTask
return_task payload = record {
  kind = callback_return;
  an_external_function = none;
  cif = none;
  parameters_address = none;
  return_holder_address = none;
  semaphore_index = none;
  queue_handle = none;
  callback_semaphore = some payload;
}

task_of-return :
    (r : Request) (payload : Ptr)
    → (task_of r).callback_semaphore ≡ some payload
    → return_task payload ≡ task_of r
unfolding return_task
task_of-return (call f c p r i) payload e = absurd cc
task_of-return (return_to p r) payload e =
    ap (λ z. record (task_of (return_to p r)) { callback_semaphore = z }) (sym e)
task_of-return return_here payload e =
    ap (λ z. record (task_of return_here) { callback_semaphore = z }) (sym e)

module _ {W : Type 0} ⦃vm : Vm W⦄ (w q semaphore h : Ptr) (cells : Cells) (rs : List Request)
    (s : State W) (is : IsReady s w q semaphore h cells rs) (r : Request) (i : Ptr)
    (x : CallbackInvocation) (payload : Ptr) (room : ℕ) where
  -- The return of a callback becomes the last request of the worker.
  pub callback_return-Added :
      i ≢ null
      → (s.heap).block i ≡ some (invocation x)
      → x.payload ≡ some payload
      → (task_of r).callback_semaphore ≡ some payload
      → AreTasks s h room cells rs
      → CanSignal s h room r
      → length rs < room
      → room ≤ sem_value_max
      → 2 ≤ (s.heap).budget
      → (s' : State W) × (worker_callback_return w i s ≡ ok tt s')
        × Added s s' w q semaphore h room 2 (rs ++ r ∷ [])
  unfolding worker_callback_return worker_task_new_callback worker_add_call return_task
  callback_return-Added real at has_payload wanted tasks can fits room_max memory =
      let n = (s.heap).next in
      let few = AreTasks-length s h room cells rs tasks in
      let apart : i ≢ n =
        λ j. cc (at, is.channel.is_heap.fresh n (omega arith), ap (s.heap).block j) in
      let made = task (return_task payload) in
      (
        handed w q semaphore h cells rs s is r,
        rw
            (
              malloc-ok s (omega (arith, memory)),
              load-ok (allocated s (some raw)) i (invocation x) real
                  (update_ne (s.heap).block n (some raw) i apart ∙ at) as_invocation x refl,
              has_payload,
              store-ok (allocated s (some raw)) n raw (n_real w q semaphore h cells rs s is r)
                  (ground arith) made,
              write-allocated s (some raw) (some made),
              task_of-return r payload wanted,
            )
            (add_call-handed w q semaphore h cells rs s is r memory (omega (arith, few, room_max))),
        handed-Added w q semaphore h cells rs s is r room fits tasks can,
      )

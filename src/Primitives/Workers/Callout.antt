-- ===== src/Primitives/Workers/Callout.antt =====
-- A call that a worker makes, compared with the same call on the thread of the virtual machine.
use threaded_ffi_plugin.Prelude.{ℕ, ◌^◌, ◌≤◌, ◌<◌, ◌≡◌, ap, [], arith}
use threaded_ffi_plugin.Machine.{Ptr, State, ok, blocked, ◌>>=◌}
use threaded_ffi_plugin.Host.{Vm, Ffi}
use threaded_ffi_plugin.Worker.{
  to_int, of_int, worker_task_new, worker_dispatch_callout, worker_run,
}
use threaded_ffi_plugin.Worker.Tasks.{IsReady}
use threaded_ffi_plugin.Worker.Run.{run-Ran}
use threaded_ffi_plugin.Worker.Dispatch.{dispatched, dispatch-IsReady}
use threaded_ffi_plugin.Primitives.Workers.{same_thread_call}

of_int-to_int : (x : ℕ) → x < 2 ^ 31 → of_int (to_int x) ≡ x
of_int-to_int x lt = ground arith

module _ {W : Type 0} ⦃vm : Vm W⦄ ⦃ffi : Ffi W⦄ (w q semaphore h : Ptr) (s : State W)
    (is : IsReady s w q semaphore h [] []) (f cif parameters return_holder : Ptr)
    (index fuel : ℕ) where
  -- A call that is handed to a worker with an empty queue, and the rounds of the worker up to its next
  -- wait, leave the world that the same call on the thread of the virtual machine leaves; the index
  -- of the semaphore must fit an `int`.
  pub worker_run-same_thread_call :
      2 ≤ (s.heap).budget
      → index < 2 ^ 31
      → 1 < fuel
      → (t u : State W) × ((worker_task_new f cif parameters return_holder index
              >>= worker_dispatch_callout w)
            s
          ≡ ok tt t)
        × (worker_run fuel w t ≡ blocked u)
        × (same_thread_call cif f return_holder parameters index s
            ≡ ok tt (record s { world = u.world }))
  unfolding same_thread_call
  worker_run-same_thread_call room fits more =
      let (sends, ready, world) =
        dispatch-IsReady w q semaphore h [] [] s is f cif parameters return_holder index tt room
          (omega arith) in
      let t = dispatched w q semaphore h [] [] s is f cif parameters return_holder index in
      let (u, runs, ran) = run-Ran w q semaphore h _ _ t ready fuel (omega (arith, more)) in
      (
        t,
        u,
        sends,
        runs,
        ap (λ v. ok tt (record s { world = v }))
            (ground (arith, ran.world, of_int-to_int index fits)),
      )

-- ===== src/Worker/Dispatch.antt =====
-- A call that is handed to a worker: a new task at the end of its queue.
use threaded_ffi_plugin.Prelude.{
  ℕ, suc, ◌+◌, ◌≤◌, ◌<◌, ◌≡◌, refl, some, List, [], ◌∷◌, ◌++◌, arith, length,
}
use threaded_ffi_plugin.Machine.{Ptr, task, raw, State, ok, ◌>>=◌}
use threaded_ffi_plugin.Machine.Access.{allocated, malloc-ok, store-ok, write-allocated}
use threaded_ffi_plugin.Host.{Vm}
use threaded_ffi_plugin.Semaphores.{sem_value_max}
use threaded_ffi_plugin.Queue.Cells.{Cells}
use threaded_ffi_plugin.Worker.{to_int, worker_task_new, worker_add_call, worker_dispatch_callout}
use threaded_ffi_plugin.Worker.Tasks.{Request, call, task_of, AreTasks, IsReady}
use threaded_ffi_plugin.Worker.Handed.{n_real, handed, add_call-handed, handed-IsReady}

module _ {W : Type 0} ⦃vm : Vm W⦄ (w q semaphore h : Ptr) (cells : Cells) (rs : List Request)
    (s : State W) (is : IsReady s w q semaphore h cells rs) (f cif parameters return_holder : Ptr)
    (index : ℕ) where
  abbrev request : Request
  request = call f cif parameters return_holder (to_int index)

  abbrev pub dispatched : State W
  dispatched = handed w q semaphore h cells rs s is request

  abbrev t : Ptr
  t = (s.heap).next

  -- A call that is handed to a worker becomes the last request in its queue, with its semaphore index
  -- as an `int`; the worker, its queue and the requests before it are as they were. Two blocks are
  -- allocated, and every semaphore that the requests signal must have room for one signal more.
  pub dispatch-IsReady :
      AreTasks s h (suc (length rs)) cells rs
      → 2 ≤ (s.heap).budget
      → length cells < sem_value_max
      → ((worker_task_new f cif parameters return_holder index >>= worker_dispatch_callout w) s
          ≡ ok tt dispatched)
        × IsReady dispatched w q semaphore h (cells ++ (t + 1, t) ∷ []) (rs ++ request ∷ [])
        × (dispatched.world ≡ s.world)
  unfolding worker_task_new worker_dispatch_callout worker_add_call
  dispatch-IsReady tasks room small = (
    rw
        (
          malloc-ok s (omega (arith, room)),
          store-ok (allocated s (some raw)) t raw (n_real w q semaphore h cells rs s is request)
              (ground arith) (task (task_of request)),
          write-allocated s (some raw) (some (task (task_of request))),
        )
        (add_call-handed w q semaphore h cells rs s is request room small),
    handed-IsReady w q semaphore h cells rs s is request tasks tt,
    refl,
  )

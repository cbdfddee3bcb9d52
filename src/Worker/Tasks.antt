-- ===== src/Worker/Tasks.antt =====
-- What the tasks in a worker's queue ask for, and what serving them does.
use threaded_ffi_plugin.Prelude.{
  ℕ, suc, ◌+◌, ◌≤◌, ◌≡◌, ◌≢◌, Bool, true, false, none, some, List, [], ◌∷◌, ◌==◌, if◌then◌else◌,
  length,
}
use threaded_ffi_plugin.Machine.{
  Ptr, null, WorkerTask, callout, callback_return, task, worker, Worker, State,
}
use threaded_ffi_plugin.Host.{Vm, Ffi}
use threaded_ffi_plugin.Semaphores.{sem_value_max}
use threaded_ffi_plugin.Semaphores.Wait.{IsPlatform}
use threaded_ffi_plugin.Queue.Cells.{Cells}
use threaded_ffi_plugin.Queue.Channel.{IsChannel}
use threaded_ffi_plugin.Worker.{of_int}

-- A callout; the return of a callback to another thread, which waits on the semaphore at `semaphore`
-- with its `sem_t` at `handle`; and the return of a callback to the worker's own thread.
pub data Request : Type 0 where
  call : (function cif parameters return_holder : Ptr) (index : ℕ) → Request
  return_to : (semaphore handle : Ptr) → Request
  return_here : Request

-- the task structure of a request
abbrev pub task_of : Request → WorkerTask
task_of (call function cif parameters return_holder index) = record {
  kind = callout;
  an_external_function = some function;
  cif = some cif;
  parameters_address = some parameters;
  return_holder_address = some return_holder;
  semaphore_index = some index;
  queue_handle = some null;
  callback_semaphore = none;
}
task_of (return_to semaphore handle) = record {
  kind = callback_return;
  an_external_function = none;
  cif = none;
  parameters_address = none;
  return_holder_address = none;
  semaphore_index = none;
  queue_handle = none;
  callback_semaphore = some semaphore;
}
task_of return_here = record {
  kind = callback_return;
  an_external_function = none;
  cif = none;
  parameters_address = none;
  return_holder_address = none;
  semaphore_index = none;
  queue_handle = none;
  callback_semaphore = some null;
}

-- The semaphore that a return to another thread signals is one of the platform, apart from the
-- queue's, and can still count `room` signals.
abbrev pub CanSignal : {W : Type 0} → State W → (h : Ptr) (room : ℕ) → Request → Type 0
CanSignal s h room (return_to semaphore handle) =
    (n : ℕ) × IsPlatform s semaphore handle n × (handle ≢ h) × (n + room ≤ sem_value_max)
CanSignal s h room _ = Unit {0}

abbrev pub among : Ptr → Cells → Bool
among p [] = false
among p ((_, t) ∷ cells) = if p == t then true else among p cells

-- The elements of the queue are distinct tasks for the requests, in their order.
abbrev pub AreTasks : {W : Type 0} → State W → (h : Ptr) (room : ℕ) → Cells → List Request → Type 0
AreTasks s h room [] [] = Unit {0}
AreTasks s h room [] (r ∷ rs) = ⊥
AreTasks s h room (c ∷ cells) [] = ⊥
AreTasks s h room ((a, t) ∷ cells) (r ∷ rs) =
    (t ≢ null)
    × ((s.heap).block t ≡ some (task (task_of r)))
    × CanSignal s h room r
    × (among t cells ≡ false)
    × AreTasks s h room cells rs

-- The worker at `w` with its queue, whose tasks ask for `requests`.
pub record IsReady {W : Type 0} (s : State W) (w q semaphore h : Ptr) (cells : Cells)
    (requests : List Request) : Type 0 where
  pub ne_null : w ≢ null
  pub this : Worker
  pub shape : (s.heap).block w ≡ some (worker this)
  pub task_queue : this.task_queue ≡ q
  pub channel : IsChannel s q semaphore h cells
  pub tasks : AreTasks s h (length requests) cells requests

-- The requests up to the first return to the worker's own thread, those behind it, and whether
-- there is one.
abbrev pub served : List Request → List Request
served [] = []
served (return_here ∷ rs) = []
served (r ∷ rs) = r ∷ served rs

abbrev pub left : List Request → List Request
left [] = []
left (return_here ∷ rs) = rs
left (r ∷ rs) = left rs

abbrev pub returns : List Request → Bool
returns [] = false
returns (return_here ∷ rs) = true
returns (r ∷ rs) = returns rs

-- how often the requests signal the `sem_t` at `p`
abbrev pub signals : Ptr → List Request → ℕ
signals p [] = 0
signals p (return_to semaphore handle ∷ rs) =
    if handle == p then suc (signals p rs) else signals p rs
signals p (r ∷ rs) = signals p rs

module _ {W : Type 0} ⦃vm : Vm W⦄ ⦃ffi : Ffi W⦄ where
  -- Each callout is made once, and its semaphore is signalled behind it.
  abbrev pub effect : Request → W → W
  effect (call function cif parameters return_holder index) w =
      vm.signal_semaphore_with_index (of_int index)
        (ffi.call cif function return_holder parameters w)
  effect _ w = w

  abbrev pub effects : List Request → W → W
  effects [] w = w
  effects (r ∷ rs) w = effects rs (effect r w)

-- ===== src/Worker/Calls.antt =====
-- Several calls that are handed to a worker one after the other.
use mathlib.Core.Path.{subst}
use mathlib.Core.List.{append-nil, append_assoc}
use threaded_ffi_plugin.Prelude.{
  ℕ, suc, ◌+◌, ◌*◌, ◌≤◌, ◌≡◌, refl, sym, ◌∙◌, List, [], ◌∷◌, ◌++◌, map, arith, length,
  length-append,
}
use threaded_ffi_plugin.Machine.{Ptr, State, Cmd, ok, ◌>>=◌, ◌>>◌, skip}
use threaded_ffi_plugin.Host.{Vm}
use threaded_ffi_plugin.Semaphores.{sem_value_max}
use threaded_ffi_plugin.Queue.Cells.{Cells}
use threaded_ffi_plugin.Worker.{to_int, worker_task_new, worker_dispatch_callout}
use threaded_ffi_plugin.Worker.Tasks.{Request, call, AreTasks, IsReady}
use threaded_ffi_plugin.Worker.Frames.{AreTasks-Stays, AreTasks-length}
use threaded_ffi_plugin.Worker.Handed.{Added, handed-Added}
use threaded_ffi_plugin.Worker.Dispatch.{dispatch-IsReady}

-- the arguments of `worker_task_new`
pub record Call : Type 0 where
  pub function : Ptr
  pub cif : Ptr
  pub parameters : Ptr
  pub return_holder : Ptr
  pub index : ℕ

abbrev pub request : Call → Request
request c = call c.function c.cif c.parameters c.return_holder (to_int c.index)

module _ {W : Type 0} ⦃vm : Vm W⦄ where
  -- The image hands the worker one call after the other.
  unfoldable pub dispatch_calls : Ptr → List Call → Cmd W (Unit {0})
  dispatch_calls w [] = skip
  dispatch_calls w (c ∷ cs) =
      worker_task_new c.function c.cif c.parameters c.return_holder c.index
      >>= worker_dispatch_callout w
      >> dispatch_calls w cs

module _ {W : Type 0} (w q semaphore h : Ptr) (room : ℕ) where
  pub Added-Added :
      (s s' s'' : State W) (one two three : ℕ) (rs rs' : List Request)
      → one + two ≡ three
      → Added s s' w q semaphore h room one rs
      → Added s' s'' w q semaphore h room two rs'
      → Added s s'' w q semaphore h room three rs'
  Added-Added s s' s'' one two three rs rs' e a b = record {
    cells = b.cells;
    ready = b.ready;
    tasks = b.tasks;
    world = b.world ∙ a.world;
    budget = omega (arith, a.budget, b.budget, e);
    beside = λ p x i at. b.beside p x i (a.beside p x i at);
    this = λ x at. b.this x (a.this x at);
    semaphores = λ p m p_h at. b.semaphores p m p_h (a.semaphores p m p_h at);
  }

  nothing-Added :
      (s : State W) (cells : Cells) (rs : List Request)
      → IsReady s w q semaphore h cells rs
      → AreTasks s h room cells rs
      → Added s s w q semaphore h room 0 rs
  nothing-Added s cells rs is tasks = record {
    cells = cells;
    ready = is;
    tasks = tasks;
    world = refl;
    budget = omega arith;
    beside = λ p x i at. at;
    this = λ x at. at;
    semaphores = λ p m p_h at. at;
  }

module _ {W : Type 0} ⦃vm : Vm W⦄ (w q semaphore h : Ptr) (room : ℕ)
    (room_max : room ≤ sem_value_max) where
  -- The calls become the last requests of the worker, in their order.
  pub dispatch_calls-Added :
      (cs : List Call) (cells : Cells) (rs : List Request) (s : State W)
      → IsReady s w q semaphore h cells rs
      → AreTasks s h room cells rs
      → length rs + length cs ≤ room
      → 2 * length cs ≤ (s.heap).budget
      → (s' : State W) × (dispatch_calls w cs s ≡ ok tt s')
        × Added s s' w q semaphore h room (2 * length cs) (rs ++ map request cs)
  unfolding dispatch_calls
  dispatch_calls-Added [] cells rs s is tasks fits memory = (
    s,
    refl,
    subst (Added s s w q semaphore h room 0) (sym (append-nil rs))
        (nothing-Added w q semaphore h room s cells rs is tasks),
  )
  dispatch_calls-Added (c ∷ cs) cells rs s is tasks fits memory =
      let few = AreTasks-length s h room cells rs tasks in
      let ones =
        AreTasks-Stays s s (λ p x i e. e) h room (suc (length rs)) cells rs (omega arith) tasks in
      let (e, _, _) =
        dispatch-IsReady w q semaphore h cells rs s is c.function c.cif c.parameters c.return_holder
          c.index ones (omega (arith, memory)) (omega (arith, few, room_max)) in
      let a = handed-Added w q semaphore h cells rs s is (request c) room (omega arith) tasks tt in
      let (s', e', b) =
        dispatch_calls-Added cs a.cells (rs ++ request c ∷ []) _ a.ready a.tasks
          (omega (arith, length-append rs (request c ∷ []))) (omega (arith, a.budget, memory)) in
      (
        s',
        rw e e',
        subst (Added s s' w q semaphore h room (2 * suc (length cs)))
            (append_assoc rs (request c ∷ []) (map request cs))
            (Added-Added w q semaphore h room s _ s' 2 (2 * length cs) (2 * suc (length cs)) _ _
              (omega arith) a b),
      )

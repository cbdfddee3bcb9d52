-- ===== src/Worker/Frames.antt =====
-- What a worker and its requests are after new memory was allocated, or an invocation was written.
use mathlib.Core.Path.{subst}
use threaded_ffi_plugin.Prelude.{
  ℕ, ◌≤◌, ◌≡◌, ◌≢◌, sym, ap, ◌∙◌, Option, none, some, List, [], ◌∷◌, arith, length,
}
use threaded_ffi_plugin.Machine.{Ptr, Block, raw, invocation, State, write}
use threaded_ffi_plugin.Machine.Access.{allocated}
use threaded_ffi_plugin.Semaphores.Wait.{IsPlatform}
use threaded_ffi_plugin.Queue.Cells.{Blocks, Cells, Linked, IsHeap}
use threaded_ffi_plugin.Queue.Contents.{update_ne}
use threaded_ffi_plugin.Worker.Tasks.{
  Request, call, return_to, return_here, CanSignal, AreTasks, IsReady,
}

-- All blocks but memory that is not written yet, and invocations.
abbrev pub IsFixed : Option Block → Type 0
IsFixed none = ⊥
IsFixed (some raw) = ⊥
IsFixed (some (invocation i)) = ⊥
IsFixed _ = Unit {0}

abbrev pub Stays : {W : Type 0} → State W → State W → Type 0
Stays s s' =
    (p : Ptr) (x : Block)
    → IsFixed (some x)
    → (s.heap).block p ≡ some x
    → (s'.heap).block p ≡ some x

pub Stays-Stays : {W : Type 0} (s s' s'' : State W) → Stays s s' → Stays s' s'' → Stays s s''
Stays-Stays s s' s'' one two p x i e = two p x i (one p x i e)

update-fixed :
    (b : Blocks) (p : Ptr) (y : Option Block) (r : Ptr) (x : Block)
    → ¬ IsFixed (b p)
    → IsFixed (some x)
    → b r ≡ some x
    → r ≢ p
update-fixed b p y r x not_is is e same = not_is (subst IsFixed (sym e ∙ ap b same) is)

module _ {W : Type 0} (s : State W) where
  pub Stays-write :
      (p : Ptr) (y : Option Block) → ¬ IsFixed ((s.heap).block p) → Stays s (write s p y)
  Stays-write p y not_is r x i e =
      update_ne (s.heap).block p y r (update-fixed (s.heap).block p y r x not_is i e) ∙ e

  pub Stays-allocated : (b : Option Block) → IsHeap s.heap → Stays s (allocated s b)
  Stays-allocated b heap r x i e =
      update_ne (s.heap).block (s.heap).next b r (
        update-fixed (s.heap).block (s.heap).next b r x
          (λ is. subst IsFixed (heap.fresh (s.heap).next (omega arith)) is) i e)
      ∙ e

module _ {W : Type 0} (s s' : State W) (stays : Stays s s') where
  Linked-Stays : (cells : Cells) → Linked (s.heap).block cells → Linked (s'.heap).block cells
  Linked-Stays [] l = tt
  Linked-Stays ((a, v) ∷ cells) (e, nn, out, l) = (stays a _ tt e, nn, out, Linked-Stays cells l)

  pub IsPlatform-Stays : (p h n : ℕ) → IsPlatform s p h n → IsPlatform s' p h n
  IsPlatform-Stays p h n is = record {
    ne_null = is.ne_null;
    handle_ne_null = is.handle_ne_null;
    shape = stays p _ tt is.shape;
    counts = stays h _ tt is.counts;
  }

  pub CanSignal-Stays :
      (h room room' : ℕ) (r : Request)
      → room' ≤ room
      → CanSignal s h room r
      → CanSignal s' h room' r
  CanSignal-Stays h room room' (call f c p r i) le can = tt
  CanSignal-Stays h room room' return_here le can = tt
  CanSignal-Stays h room room' (return_to p r) le (n, is, r_h, fits) =
      (n, IsPlatform-Stays p r n is, r_h, omega arith)

  -- The requests keep the room that their semaphores have, and may be said to have less.
  pub AreTasks-Stays :
      (h room room' : ℕ) (cells : Cells) (rs : List Request)
      → room' ≤ room
      → AreTasks s h room cells rs
      → AreTasks s' h room' cells rs
  AreTasks-Stays h room room' [] [] le a = tt
  AreTasks-Stays h room room' [] (r ∷ rs) le a = elim a [ ]
  AreTasks-Stays h room room' (c ∷ cells) [] le a = elim a [ ]
  AreTasks-Stays h room room' ((a, t) ∷ cells) (r ∷ rs) le (nn, e, can, out, rest) = (
    nn,
    stays t _ tt e,
    CanSignal-Stays h room room' r le can,
    out,
    AreTasks-Stays h room room' cells rs le rest,
  )

  pub IsReady-Stays :
      (w q semaphore h : Ptr) (cells : Cells) (rs : List Request)
      → IsHeap s'.heap
      → IsReady s w q semaphore h cells rs
      → IsReady s' w q semaphore h cells rs
  IsReady-Stays w q semaphore h cells rs heap is =
      let queue = is.channel.is_queue in
      record {
        ne_null = is.ne_null;
        this = is.this;
        shape = stays w _ tt is.shape;
        task_queue = is.task_queue;
        channel = record {
          is_queue = record {
            ne_null = queue.ne_null;
            shape = stays q _ tt queue.shape;
            linked = Linked-Stays cells queue.linked;
          };
          is_platform = IsPlatform-Stays semaphore h (length cells) is.channel.is_platform;
          is_heap = heap;
        };
        tasks = AreTasks-Stays h (length rs) (length rs) cells rs (omega arith) is.tasks;
      }

-- On which thread something runs makes no difference to them.
module _ {W : Type 0} (s : State W) (t : ℕ) where
  pub IsReady-thread :
      (w q semaphore h : Ptr) (cells : Cells) (rs : List Request)
      → IsReady s w q semaphore h cells rs
      → IsReady (record s { thread = t }) w q semaphore h cells rs
  IsReady-thread w q semaphore h cells rs is =
      IsReady-Stays s (record s { thread = t }) (λ p x i e. e) w q semaphore h cells rs
        is.channel.is_heap is

  pub IsPlatform-thread :
      (p h n : ℕ) → IsPlatform s p h n → IsPlatform (record s { thread = t }) p h n
  IsPlatform-thread p h n is = IsPlatform-Stays s (record s { thread = t }) (λ p x i e. e) p h n is

-- The number of cells is that of the requests.
pub AreTasks-length :
    {W : Type 0} (s : State W) (h room : ℕ) (cells : Cells) (rs : List Request)
    → AreTasks s h room cells rs
    → length cells ≡ length rs
AreTasks-length s h room [] [] a = omega arith
AreTasks-length s h room [] (r ∷ rs) a = elim a [ ]
AreTasks-length s h room (c ∷ cells) [] a = elim a [ ]
AreTasks-length s h room ((a, t) ∷ cells) (r ∷ rs) (nn, e, can, out, rest) =
    let more = AreTasks-length s h room cells rs rest in omega arith

-- Without requests there are no cells.
pub no_cells-IsReady :
    {W : Type 0} (s : State W) (w q semaphore h : Ptr) (cells : Cells)
    → IsReady s w q semaphore h cells []
    → IsReady s w q semaphore h [] []
no_cells-IsReady s w q semaphore h [] is = is
no_cells-IsReady s w q semaphore h (c ∷ cells) is = elim is.tasks [ ]

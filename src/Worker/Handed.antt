-- ===== src/Worker/Handed.antt =====
-- A new task at the end of a worker's queue, whatever it asks for.
use mathlib.Core.Path.{subst}
use threaded_ffi_plugin.Prelude.{
  ℕ, suc, ◌+◌, ◌-◌, ◌≤◌, ◌<◌, ◌≡◌, ◌≢◌, refl, sym, ap, ◌∙◌, false, none, some, List, [], ◌∷◌, ◌++◌,
  arith, length, length-append,
}
use threaded_ffi_plugin.Machine.{Ptr, null, Block, task, worker, sem, as_worker, State, ok}
use threaded_ffi_plugin.Machine.Access.{allocated, load-ok}
use threaded_ffi_plugin.Host.{Vm}
use threaded_ffi_plugin.Semaphores.{sem_value_max}
use threaded_ffi_plugin.Queue.Cells.{Cells}
use threaded_ffi_plugin.Queue.Contents.{IsOther, update_ne}
use threaded_ffi_plugin.Queue.Put.{appended}
use threaded_ffi_plugin.Queue.Channel.{IsChannel, sent, put-sent, sent-IsChannel}
use threaded_ffi_plugin.Queue.Frames.{enqueued-other}
use threaded_ffi_plugin.Worker.{worker_add_call}
use threaded_ffi_plugin.Worker.Beside.{Besides, KeepsWorker, IsOther-IsBeside, beside-ne_sem}
use threaded_ffi_plugin.Queue.Frames.{IsHeap-allocated}
use threaded_ffi_plugin.Worker.Frames.{
  IsReady-Stays, Stays-allocated, AreTasks-Stays, CanSignal-Stays,
}
use threaded_ffi_plugin.Worker.Tasks.{Request, task_of, CanSignal, among, AreTasks, IsReady}
use threaded_ffi_plugin.Worker.Serve.{Kept, CanSignal-Kept, AreTasks-Kept, IsPlatform-moved}

among-append :
    (p : Ptr) (cells : Cells) (a t : Ptr)
    → among p cells ≡ false
    → p ≢ t
    → among p (cells ++ (a, t) ∷ []) ≡ false
among-append p [] a t out apart = ground arith
among-append p ((b, u) ∷ cells) a t out apart = ground (arith, among-append p cells a t)

module _ {W : Type 0} (s : State W) (h room : ℕ) (a t : Ptr) (r : Request) where
  -- A task that is not among the others can stand behind them.
  AreTasks-append :
      (cells : Cells) (rs : List Request)
      → t ≢ null
      → (s.heap).block t ≡ some (task (task_of r))
      → CanSignal s h room r
      → among t cells ≡ false
      → AreTasks s h room cells rs
      → AreTasks s h room (cells ++ (a, t) ∷ []) (rs ++ r ∷ [])
  AreTasks-append [] [] real at can out old = (real, at, can, refl, tt)
  AreTasks-append [] (x ∷ rs) real at can out old = elim old [ ]
  AreTasks-append (c ∷ cells) [] real at can out old = elim old [ ]
  AreTasks-append ((b, u) ∷ cells) (x ∷ rs) real at can out (nn, e, can', out', rest) = (
    nn,
    e,
    can',
    among-append u cells a t out' (ground (arith, out)),
    AreTasks-append cells rs real at can (ground arith) rest,
  )

module _ {W : Type 0} (s : State W) (h room : ℕ) (t : Ptr) (fresh : (s.heap).block t ≡ none) where
  not-among :
      (cells : Cells) (rs : List Request) → AreTasks s h room cells rs → among t cells ≡ false
  not-among [] [] old = refl
  not-among [] (x ∷ rs) old = elim old [ ]
  not-among (c ∷ cells) [] old = elim old [ ]
  not-among ((b, u) ∷ cells) (x ∷ rs) (nn, e, can, out, rest) =
      let t_u : t ≢ u = λ j. cc (fresh, e, ap (s.heap).block j) in
      ground (arith, not-among cells rs rest)

-- The queue has grown: its requests are `rs`, whose semaphores have room for `room` signals, and
-- `used` requests for memory were granted.
pub record Added {W : Type 0} (s s' : State W) (w q semaphore h : Ptr) (room used : ℕ)
    (rs : List Request) : Type 0 where
  pub cells : Cells
  pub ready : IsReady s' w q semaphore h cells rs
  pub tasks : AreTasks s' h room cells rs
  pub world : s'.world ≡ s.world
  pub budget : (s'.heap).budget ≡ (s.heap).budget - used
  pub beside : Besides s s'
  pub this : KeepsWorker s s' w
  pub semaphores :
      (p m : ℕ) → p ≢ h → (s.heap).block p ≡ some (sem m) → (s'.heap).block p ≡ some (sem m)

module _ {W : Type 0} ⦃vm : Vm W⦄ (w q semaphore h : Ptr) (cells : Cells) (rs : List Request)
    (s : State W) (is : IsReady s w q semaphore h cells rs) (r : Request) where
  -- the address of the new task
  abbrev pub n : Ptr
  n = (s.heap).next

  -- the task is allocated and filled in
  abbrev pub s1 : State W
  s1 = allocated s (some (task (task_of r)))

  abbrev pub handed : State W
  handed = sent q semaphore h n cells s1

  fresh : (s.heap).block n ≡ none
  fresh = is.channel.is_heap.fresh n (omega arith)

  pub n_real : n ≢ null
  n_real = omega (arith, is.channel.is_heap.next_pos)

  pub at_s1 : (p : Ptr) (x : Block) → (s.heap).block p ≡ some x → (s1.heap).block p ≡ some x
  at_s1 p x e = update_ne (s.heap).block n _ p (λ j. cc (e, fresh, ap (s.heap).block j)) ∙ e

  s1-IsChannel : IsChannel s1 q semaphore h cells
  s1-IsChannel =
      (IsReady-Stays s s1 (Stays-allocated s _ is.channel.is_heap) w q semaphore h cells rs
        (IsHeap-allocated s _ is.channel.is_heap) is).channel

  -- the other blocks, but for the count of the queue's semaphore
  pub stays :
      (p : Ptr) (x : Block)
      → (s1.heap).block p ≡ some x
      → IsOther (some x)
      → p ≢ h
      → (handed.heap).block p ≡ some x
  stays p x e o p_h =
      update_ne (appended s1 q semaphore cells n).heap.block h _ p p_h
      ∙ enqueued-other (s1.heap).block q semaphore cells (s1.heap).next n p x s1-IsChannel.is_queue
          (s1-IsChannel.is_heap.fresh (s1.heap).next (omega arith)) e o

  pub remains :
      (p : Ptr) (x : Block)
      → (s.heap).block p ≡ some x
      → IsOther (some x)
      → ((m : ℕ) → x ≢ sem m)
      → (handed.heap).block p ≡ some x
  remains p x e o no_sem =
      stays p x (at_s1 p x e) o
        (λ j. no_sem (length cells) (cc (e, is.channel.is_platform.counts, ap (s.heap).block j)))

  handed-Kept : (room : ℕ) → Kept s handed h room room cells
  handed-Kept room = record {
    tasks = λ t x i e. remains t (task x) e tt (λ m d. cc);
    semaphores = λ p r m platform r_h. (
      m,
      IsPlatform-moved s handed p r m m platform
          (remains p _ platform.shape tt (λ k d. cc) ∙ sym platform.shape)
          (stays r (sem m) (at_s1 r _ platform.counts) tt r_h),
      omega arith,
    );
  }

  pub add_call-handed :
      2 ≤ (s.heap).budget → length cells < sem_value_max → worker_add_call w n s1 ≡ ok tt handed
  unfolding worker_add_call
  add_call-handed room small =
      rw
        (
          load-ok s1 w (worker is.this) is.ne_null (at_s1 w _ is.shape) as_worker is.this refl,
          is.task_queue,
        )
        (put-sent q semaphore h n cells s1 s1-IsChannel (omega (arith, room)) small)

  handed-AreTasks :
      (room : ℕ)
      → AreTasks s h room cells rs
      → CanSignal s h room r
      → AreTasks handed h room (cells ++ (n + 1, n) ∷ []) (rs ++ r ∷ [])
  handed-AreTasks room tasks can =
      let k = handed-Kept room in
      AreTasks-append handed h room (n + 1) n r cells rs n_real
        (stays n (task (task_of r)) (ground arith) tt
          (λ j. cc (fresh, is.channel.is_platform.counts, ap (s.heap).block j)))
        (CanSignal-Kept s handed h room room cells r k can)
        (not-among s h room n fresh cells rs tasks)
        (AreTasks-Kept s handed h room room cells rs k tasks)

  -- The new task is the last request; every semaphore that the requests signal must have room for one
  -- signal more.
  pub handed-IsReady :
      AreTasks s h (suc (length rs)) cells rs
      → CanSignal s h (suc (length rs)) r
      → IsReady handed w q semaphore h (cells ++ (n + 1, n) ∷ []) (rs ++ r ∷ [])
  handed-IsReady tasks can = record {
    ne_null = is.ne_null;
    this = is.this;
    shape = remains w _ is.shape tt (λ m d. cc);
    task_queue = is.task_queue;
    channel = sent-IsChannel q semaphore h n cells s1 s1-IsChannel;
    tasks =
        subst (λ m. AreTasks handed h m (cells ++ (n + 1, n) ∷ []) (rs ++ r ∷ []))
          (omega (arith, length-append rs (r ∷ []))) (handed-AreTasks (suc (length rs)) tasks can);
  }

  -- With room for more signals than there are requests, so has the longer queue.
  pub handed-Added :
      (room : ℕ)
      → length rs < room
      → AreTasks s h room cells rs
      → CanSignal s h room r
      → Added s handed w q semaphore h room 2 (rs ++ r ∷ [])
  handed-Added room fits tasks can = record {
    cells = cells ++ (n + 1, n) ∷ [];
    ready =
        handed-IsReady
          (AreTasks-Stays s s (λ p x i e. e) h room (suc (length rs)) cells rs (omega arith) tasks)
          (CanSignal-Stays s s (λ p x i e. e) h room (suc (length rs)) r (omega arith) can);
    tasks = handed-AreTasks room tasks can;
    world = refl;
    budget = omega arith;
    beside = λ p x i e. remains p x e (IsOther-IsBeside (some x) i) (beside-ne_sem x i);
    this = λ x e. remains w (worker x) e tt (λ m d. cc);
    semaphores = λ p m p_h e. stays p (sem m) (at_s1 p _ e) tt p_h;
  }

-- ===== src/Callbacks/Frontend.antt =====
-- The call of a callback on the same-thread runner, up to where the image runs.
use threaded_ffi_plugin.Prelude.{
  ◌+◌, ◌≤◌, ◌≡◌, ◌≢◌, refl, sym, ap, ◌∙◌, Option, none, some, List, [], ◌∷◌, ◌++◌, arith,
}
use threaded_ffi_plugin.Machine.{
  Ptr, null, Block, Callback, callback, raw, invocation, callback_context, as_callback, as_runner,
  as_runner_block, as_invocation, State, ok, write, local,
}
use threaded_ffi_plugin.Machine.Access.{allocated, malloc-ok, load-ok, store-ok}
use threaded_ffi_plugin.Host.{Vm}
use threaded_ffi_plugin.Worker.{set_payload}
use threaded_ffi_plugin.Queue.Cells.{Cells, IsHeap}
use threaded_ffi_plugin.Queue.Contents.{update_ne}
use threaded_ffi_plugin.Queue.Frames.{enqueued-other}
use threaded_ffi_plugin.Queue.Pending.{
  IsPending, announced, put-announced, announced-IsPending, IsPending-write, IsPending-allocated,
  IsPending-world,
}
use threaded_ffi_plugin.Callbacks.{
  callback_frontend, callback_frontend_on_same_thread, same_thread_callback_enter,
  same_thread_prepare_callback,
}
use threaded_ffi_plugin.Callbacks.Invocation.{placed, invocation_of, IsPending-placed}
use threaded_ffi_plugin.Callbacks.Extends.{Extends, Extends-trans, IsStack-Extends, unused}
use threaded_ffi_plugin.Callbacks.Stack.{Activation, top, RunsOn, same_thread_runner}

module _ {W : Type 0} ⦃vm : Vm W⦄ (cb ret args r semaphore index : Ptr) (c : Callback)
    (live : List Activation) (cells : Cells) (s : State W) where
  -- What has to hold when a foreign function calls the callback at `cb`.
  pub record CanEnter : Type 0 where
    pub ne_null : cb ≢ null
    pub shape : (s.heap).block cb ≡ some (callback c)
    pub runner : c.runner ≡ some r
    pub on : RunsOn (s.heap).block r live
    pub pending : IsPending s s.callback_queue semaphore index cells
    pub room : 2 ≤ (s.heap).budget

  abbrev q : Ptr
  q = s.callback_queue

  abbrev i : Ptr
  i = (s.heap).next

  abbrev context : Ptr
  context = (s.heap).next + 1 + 1

  abbrev inv : Option Ptr → Block
  inv payload = invocation (invocation_of cb ret args (top live) payload)

  abbrev s1 : State W
  s1 = placed s (inv none)

  abbrev s2 : State W
  s2 = write s1 r (some (same_thread_runner i))

  abbrev s3 : State W
  s3 = announced q semaphore index i cells s2

  abbrev s4 : State W
  s4 =
      write (write (allocated s3 (some raw)) i (some (inv (some context)))) context
        (some callback_context)

  abbrev pub entered : State W
  entered = record s4 { world = vm.enter_interpreter_from_callback context s3.world }

  module _ (can : CanEnter) where
    heap : IsHeap s.heap
    heap = can.pending.is_heap

    fresh : (s.heap).block i ≡ none
    fresh = heap.fresh i (omega arith)

    real : i ≢ null
    real = omega (arith, heap.next_pos)

    i_r : i ≢ r
    i_r j = cc (fresh, can.on.shape, ap (s.heap).block j)

    cb_r : cb ≢ r
    cb_r j = cc (can.shape, can.on.shape, ap (s.heap).block j)

    cb_i : cb ≢ i
    cb_i j = cc (can.shape, fresh, ap (s.heap).block j)

    at_r : (s1.heap).block r ≡ some (same_thread_runner (top live))
    at_r = update_ne (s.heap).block i (some (inv none)) r (λ j. i_r (sym j)) ∙ can.on.shape

    s2-Extends : Extends (s.heap).block (s2.heap).block r
    s2-Extends p x e o p_r =
        update_ne (s1.heap).block r _ p p_r
        ∙ update_ne (s.heap).block i _ p (λ j. cc (e, fresh, ap (s.heap).block j))
        ∙ e

    s2-IsPending : IsPending s2 q semaphore index cells
    s2-IsPending =
        IsPending-write q semaphore index cells s1 r _ _
          (IsPending-placed q semaphore index cells s (inv none) can.pending) at_r tt
          (λ j. cc (can.on.shape, can.pending.is_pharo.shape, ap (s.heap).block j))

    s3-Extends : Extends (s2.heap).block (s3.heap).block r
    s3-Extends p x e o p_r =
        enqueued-other (s2.heap).block q semaphore cells (s2.heap).next i p x s2-IsPending.is_queue
          (s2-IsPending.is_heap.fresh (s2.heap).next (omega arith)) e o

    s3-IsPending : IsPending s3 q semaphore index (cells ++ ((s2.heap).next, i) ∷ [])
    s3-IsPending = announced-IsPending q semaphore index i cells s2 s2-IsPending

    at_i : (s3.heap).block i ≡ some (inv none)
    at_i = s3-Extends i (inv none) (ground (arith, i_r)) tt i_r

    runner_at : (s3.heap).block r ≡ some (same_thread_runner i)
    runner_at =
        enqueued-other (s2.heap).block q semaphore cells (s2.heap).next i r _ s2-IsPending.is_queue
          (s2-IsPending.is_heap.fresh (s2.heap).next (omega arith)) (ground arith) tt

    callback_at : (s3.heap).block cb ≡ some (callback c)
    callback_at = s3-Extends cb _ (s2-Extends cb _ can.shape tt cb_r) tt cb_r

    pushed : callback_frontend cb ret args s ≡ ok i s3
    unfolding callback_frontend local same_thread_prepare_callback
    pushed = rw (
      load-ok s cb (callback c) can.ne_null can.shape as_callback c refl,
      can.runner,
      load-ok s r (same_thread_runner (top live)) can.on.ne_null can.on.shape as_runner _ refl,
      load-ok s1 r (same_thread_runner (top live)) can.on.ne_null at_r as_runner_block
          (same_thread_runner (top live)) refl,
      store-ok s1 r (same_thread_runner (top live)) can.on.ne_null at_r (same_thread_runner i),
      load-ok s2 r (same_thread_runner i) can.on.ne_null (ground arith) as_runner _ refl,
      put-announced q semaphore index i cells s2 s2-IsPending (omega (arith, can.room)),
    )

    -- in the state after `malloc` for the context
    abbrev s5 : State W
    s5 = allocated s3 (some raw)

    kept : (p : Ptr) (x : Block) → (s3.heap).block p ≡ some x → (s5.heap).block p ≡ some x
    kept p x e =
        update_ne (s3.heap).block context (some raw) p
          (λ j. cc (e, s3-IsPending.is_heap.fresh context (omega arith), ap (s3.heap).block j))
        ∙ e

    -- A foreign call of the callback pushes an invocation on the runner's stack, puts it at the end
    -- of the queue of pending callbacks, signals the virtual machine once, and enters the
    -- interpreter with a new context, which is the invocation's payload.
    pub frontend-entered : callback_frontend_on_same_thread cb ret args s ≡ ok (i, context) entered
    unfolding callback_frontend_on_same_thread same_thread_callback_enter set_payload
    frontend-entered = rw (
      pushed,
      load-ok s3 cb (callback c) can.ne_null callback_at as_callback c refl,
      can.runner,
      load-ok s3 r (same_thread_runner i) can.on.ne_null runner_at as_runner _ refl,
      malloc-ok s3 (omega (arith, can.room)),
      load-ok s5 i (inv none) real (kept i _ at_i) as_invocation _ refl,
      store-ok s5 i (inv none) real (kept i _ at_i) (inv (some context)),
      store-ok (write s5 i (some (inv (some context)))) context raw (omega arith) (ground arith)
          callback_context,
    )

    Extends-s3 : Extends (s.heap).block (s3.heap).block r
    Extends-s3 =
        Extends-trans (s.heap).block (s2.heap).block (s3.heap).block r s2-Extends s3-Extends

    context_fresh : (s.heap).block context ≡ none
    context_fresh = heap.fresh context (omega arith)

    pub Extends-entered : Extends (s.heap).block (entered.heap).block r
    Extends-entered p x e o p_r =
        update_ne (write s5 i (some (inv (some context)))).heap.block context _ p
          (λ j. cc (e, context_fresh, ap (s.heap).block j))
        ∙ update_ne (s5.heap).block i _ p (λ j. cc (e, fresh, ap (s.heap).block j))
        ∙ kept p x (Extends-s3 p x e o p_r)

    -- The new invocation is the innermost one, above those that were there.
    pub entered-RunsOn :
        RunsOn (entered.heap).block r (record { invocation = i; context = context } ∷ live)
    entered-RunsOn = record {
      ne_null = can.on.ne_null;
      shape =
          update_ne (write s5 i (some (inv (some context)))).heap.block context _ r (λ j.
            cc (runner_at, s3-IsPending.is_heap.fresh context (omega arith), ap (s3.heap).block j))
          ∙ update_ne (s5.heap).block i _ r (λ j. i_r (sym j))
          ∙ kept r _ runner_at;
      stack = (
        real,
        omega arith,
        (invocation_of cb ret args (top live) (some context), ground arith, refl, refl),
        ground arith,
        unused (s.heap).block live i can.on.stack fresh,
        unused (s.heap).block live context can.on.stack context_fresh,
        IsStack-Extends (s.heap).block (entered.heap).block r live live Extends-entered can.on.shape
            can.on.stack,
      );
    }

    raw_at : (write s5 i (some (inv (some context)))).heap.block context ≡ some raw
    raw_at = ground arith

    pub entered-IsPending : IsPending entered q semaphore index (cells ++ ((s2.heap).next, i) ∷ [])
    entered-IsPending =
        let cells' = cells ++ ((s2.heap).next, i) ∷ [] in
        let s6 : State W = write s5 i (some (inv (some context))) in
        let p5 = IsPending-allocated q semaphore index cells' s3 raw s3-IsPending in
        let sem_i : i ≢ semaphore =
          λ j. cc (kept i _ at_i, p5.is_pharo.shape, ap (s5.heap).block j) in
        let p6 = IsPending-write q semaphore index cells' s5 i _ _ p5 (kept i _ at_i) tt sem_i in
        let sem_c : context ≢ semaphore =
          λ j. cc (raw_at, p6.is_pharo.shape, ap (s6.heap).block j) in
        IsPending-world q semaphore index cells' s4
          (vm.enter_interpreter_from_callback context s3.world)
          (IsPending-write q semaphore index cells' s6 context raw (some callback_context) p6 raw_at
            tt sem_c)

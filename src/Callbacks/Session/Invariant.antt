-- ===== src/Callbacks/Session/Invariant.antt =====
-- The steps of a session, and what is well formed between them.
use mathlib.Core.Path.{subst}
use threaded_ffi_plugin.Prelude.{◌+◌, ◌≡◌, ◌≢◌, ◌≤◌, sym, ◌∙◌, some, List, [], ◌∷◌, arith}
use threaded_ffi_plugin.Machine.{Ptr, null, Callback, callback, State, Run, ok, stop}
use threaded_ffi_plugin.Machine.Results.{ok-state, ok-value, stop-state}
use threaded_ffi_plugin.Host.{Vm}
use threaded_ffi_plugin.Queue.Cells.{Cells}
use threaded_ffi_plugin.Queue.Frames.{dequeued-other}
use threaded_ffi_plugin.Queue.Take.{dequeued}
use threaded_ffi_plugin.Queue.{threadsafe_queue_take}
use threaded_ffi_plugin.Queue.Pending.{
  IsPending, poll-nil, poll-cons, polled-IsPending, IsPending-world,
}
use threaded_ffi_plugin.Callbacks.{callback_frontend_on_same_thread, queue_next_pending_callback}
use threaded_ffi_plugin.Callbacks.Stack.{Activation, RunsOn}
use threaded_ffi_plugin.Callbacks.Extends.{Extends, IsStack-Extends}
use threaded_ffi_plugin.Callbacks.Frontend.{
  CanEnter, frontend-entered, entered, entered-RunsOn, entered-IsPending,
}
use threaded_ffi_plugin.Callbacks.Session.{
  Session, Step, Steps, enter, refused, returned, poll, outside, here, later,
}
use threaded_ffi_plugin.Callbacks.Session.Return as Return
use threaded_ffi_plugin.Callbacks.Session.Return.{Inv, Returned, return_from-Returned}

module _ {W : Type 0} ⦃vm : Vm W⦄ (r semaphore index : Ptr) where
  enter-Inv :
      (cb ret args : Ptr) (c : Callback) (a : Activation) (live : List Activation) (s t : State W)
      → cb ≢ null
      → (s.heap).block cb ≡ some (callback c)
      → c.runner ≡ some r
      → 2 ≤ (s.heap).budget
      → callback_frontend_on_same_thread cb ret args s ≡ ok (a.invocation, a.context) t
      → Inv r semaphore index s live
      → Inv r semaphore index t (a ∷ live)
  enter-Inv cb ret args c a live s t real at runs room e inv =
      let can : CanEnter cb ret args r semaphore index c live inv.cells s = record {
        ne_null = real;
        shape = at;
        runner = runs;
        on = inv.on;
        pending = inv.pending;
        room = room;
      } in
      let same = sym (frontend-entered cb ret args r semaphore index c live inv.cells s can) ∙ e in
      let there : Inv r semaphore index (entered cb ret args r semaphore index c live inv.cells s)
          (record { invocation = (s.heap).next; context = (s.heap).next + 1 + 1 } ∷ live) =
        record {
          on = entered-RunsOn cb ret args r semaphore index c live inv.cells s can;
          cells = _;
          pending = entered-IsPending cb ret args r semaphore index c live inv.cells s can;
          queue_ne_null = inv.queue_ne_null;
        } in
      subst (λ u. Inv r semaphore index u (a ∷ live)) (ok-state same)
        (subst
          (λ p.
            Inv r semaphore index (entered cb ret args r semaphore index c live inv.cells s)
              (record { invocation = p.0; context = p.1 } ∷ live))
          (ok-value same) there)

  dequeued-Inv :
      (a v : Ptr) (live : List Activation) (s : State W) (rest : Cells)
      → RunsOn (s.heap).block r live
      → IsPending s s.callback_queue semaphore index ((a, v) ∷ rest)
      → s.callback_queue ≢ null
      → Inv r semaphore index (dequeued s s.callback_queue semaphore a rest) live
  dequeued-Inv a v live s rest on pending real =
      let kept : Extends (s.heap).block ((dequeued s s.callback_queue semaphore a rest).heap).block
          r =
        λ p x e o p_r.
          dequeued-other (s.heap).block s.callback_queue semaphore a v rest p x pending.is_queue e
            o in
      record {
        on = record {
          ne_null = on.ne_null;
          shape =
              dequeued-other (s.heap).block s.callback_queue semaphore a v rest r _ pending.is_queue
                on.shape tt;
          stack = IsStack-Extends (s.heap).block _ r live live kept on.shape on.stack;
        };
        cells = rest;
        pending = polled-IsPending s.callback_queue semaphore index s a v rest pending;
        queue_ne_null = real;
      }

  poll-at :
      (p : Ptr) (live : List Activation) (s t : State W) (cells : Cells)
      → threadsafe_queue_take s.callback_queue s ≡ ok p t
      → RunsOn (s.heap).block r live
      → IsPending s s.callback_queue semaphore index cells
      → s.callback_queue ≢ null
      → Inv r semaphore index t live
  poll-at p live s t [] e on pending real =
      subst (λ x. Inv r semaphore index x live)
        (ok-state (sym (poll-nil s.callback_queue semaphore index s pending) ∙ e))
        (record { on = on; cells = []; pending = pending; queue_ne_null = real })
  poll-at p live s t ((a, v) ∷ rest) e on pending real =
      subst (λ x. Inv r semaphore index x live)
        (ok-state (sym (poll-cons s.callback_queue semaphore index s a v rest pending) ∙ e))
        (dequeued-Inv a v live s rest on pending real)

  poll-Inv :
      (p : Ptr) (live : List Activation) (s t : State W)
      → queue_next_pending_callback s ≡ ok p t
      → Inv r semaphore index s live
      → Inv r semaphore index t live
  unfolding queue_next_pending_callback
  poll-Inv p live s t e inv =
      poll-at p live s t inv.cells (sym (ground (arith, inv.queue_ne_null)) ∙ e) inv.on inv.pending
        inv.queue_ne_null

  outside-Inv :
      (w : W) (live : List Activation) (s : State W)
      → Inv r semaphore index s live
      → Inv r semaphore index (record s { world = w }) live
  outside-Inv w live s inv = record {
    on = inv.on;
    cells = inv.cells;
    pending = IsPending-world s.callback_queue semaphore index inv.cells s w inv.pending;
    queue_ne_null = inv.queue_ne_null;
  }

  returned-Inv :
      (i : Ptr) (live now : List Activation) (s t : State W) (o : Run W (List Activation))
      → Returned r semaphore index i live s o
      → o ≡ ok now t
      → Inv r semaphore index t now
  returned-Inv i live now s t o (Return.accepted a rest u at_live at_i inv) e =
      subst (λ x. Inv r semaphore index x now) (ok-state e)
        (subst (λ x. Inv r semaphore index u x) (ok-value e) inv)
  returned-Inv i live now s t o (Return.refused w differ) e = absurd (cc e)

  refused-Inv :
      (i : Ptr) (live : List Activation) (s t : State W) (o : Run W (List Activation))
      → Returned r semaphore index i live s o
      → o ≡ stop t
      → Inv r semaphore index s live
      → Inv r semaphore index t live
  refused-Inv i live s t o (Return.accepted a rest u at_live at_i inv) e old = absurd (cc e)
  refused-Inv i live s t o (Return.refused w differ) e old =
      subst (λ x. Inv r semaphore index x live) (stop-state live e) (outside-Inv w live s old)

  Step-Inv :
      (x y : Session W)
      → Step r x y
      → Inv r semaphore index x.state x.live
      → Inv r semaphore index y.state y.live
  Step-Inv x y (enter cb ret args c a real at runs room e more) inv =
      subst (Inv r semaphore index y.state) (sym more)
        (enter-Inv cb ret args c a x.live x.state y.state real at runs room e inv)
  Step-Inv x y (refused i real e same) inv = subst (Inv r semaphore index y.state) (sym same) (
      refused-Inv i x.live x.state y.state _
        (return_from-Returned r semaphore index i x.live x.state real inv) e inv)
  Step-Inv x y (returned i real e) inv =
      returned-Inv i x.live y.live x.state y.state _
        (return_from-Returned r semaphore index i x.live x.state real inv) e
  Step-Inv x y (poll p e same) inv =
      subst (Inv r semaphore index y.state) (sym same) (poll-Inv p x.live x.state y.state e inv)
  Step-Inv x y (outside w e same) inv =
      subst (Inv r semaphore index y.state) (sym same)
        (subst (λ s. Inv r semaphore index s x.live) (sym e) (outside-Inv w x.live x.state inv))

  -- From a well-formed session every sequence of calls, returns in any order, reads of the queue
  -- and changes of the world leads to a well-formed session: the runner's chain of invocations is
  -- the C stack, each invocation with its own context, and the queue is a chain of invocations.
  pub Steps-Inv :
      (x y : Session W)
      → Steps r x y
      → Inv r semaphore index x.state x.live
      → Inv r semaphore index y.state y.live
  Steps-Inv x y here inv = inv
  Steps-Inv x z (later {y} before last) inv = Step-Inv y z last (Steps-Inv x y before inv)

-- ===== src/Callbacks/Session/Return.antt =====
-- What a return does to the runner, the C stack and the queue.
use mathlib.Core.Path.{subst}
use native.Mathlib.Decide.{ℕ_discrete}
use threaded_ffi_plugin.Prelude.{
  ◌≡◌, ◌≢◌, refl, sym, ap, ◌∙◌, true, false, none, some, List, [], ◌∷◌, arith,
}
use threaded_ffi_plugin.Machine.{
  Ptr, null, CallbackInvocation, invocation, callback_context, as_invocation, State, Run, ok, stop,
  write,
}
use threaded_ffi_plugin.Machine.Access.{free-ok, load-ok}
use threaded_ffi_plugin.Host.{Vm}
use threaded_ffi_plugin.Queue.Cells.{Blocks, Cells}
use threaded_ffi_plugin.Queue.Contents.{update_ne}
use threaded_ffi_plugin.Queue.Pending.{IsPending, IsPending-write, IsPending-world}
use threaded_ffi_plugin.Callbacks.{callback_frontend_resume}
use threaded_ffi_plugin.Callbacks.Stack.{
  Activation, top, uses, IsStack, IsStack-frame, RunsOn, same_thread_runner, answered,
  return_invocation-refused, return_invocation-accepted,
}
use threaded_ffi_plugin.Callbacks.Session.{jump, return_from}

-- A runner is no part of an activation.
unused-runner :
    (b : Blocks) (now : List Activation) (r : Ptr) (live : List Activation)
    → b r ≡ some (same_thread_runner (top now))
    → IsStack b live
    → uses r live ≡ false
unused-runner b now r [] e is = refl
unused-runner b now r (a ∷ live) e (ni, nc, (v, at, prev, pay), ctx, out_i, out_c, rest) =
    let r_i : r ≢ a.invocation = λ j. cc (e, at, ap b j) in
    let r_c : r ≢ a.context = λ j. cc (e, ctx, ap b j) in
    ground (arith, unused-runner b now r live e rest)

-- The stack of the runner is the C stack, and the queue of pending callbacks is in order.
pub record Inv {W : Type 0} (r semaphore index : Ptr) (s : State W) (live : List Activation)
    : Type 0 where
  pub on : RunsOn (s.heap).block r live
  pub cells : Cells
  pub pending : IsPending s s.callback_queue semaphore index cells
  pub queue_ne_null : s.callback_queue ≢ null

module _ {W : Type 0} ⦃vm : Vm W⦄ (r semaphore index : Ptr) (a : Activation)
    (live : List Activation) (s : State W) (inv : Inv r semaphore index s (a ∷ live)) where
  abbrev popped : State W
  popped = record (write s r (some (same_thread_runner (top live)))) {
    world = vm.exit_interpreter_to_callback a.context (answered vm.true_object s.world);
  }

  -- the state once the activation has ended
  abbrev pub returned_state : State W
  returned_state = write (write popped a.context none) a.invocation none

  v : CallbackInvocation
  v = ((inv.on).stack).2.0

  at_i : (s.heap).block a.invocation ≡ some (invocation v)
  unfolding v
  at_i = ((inv.on).stack).2.1

  at_context : (s.heap).block a.context ≡ some callback_context
  at_context = ((inv.on).stack).3

  i_r : a.invocation ≢ r
  i_r j = cc (at_i, inv.on.shape, ap (s.heap).block j)

  c_r : a.context ≢ r
  c_r j = cc (at_context, inv.on.shape, ap (s.heap).block j)

  i_c : a.invocation ≢ a.context
  i_c j = cc (at_i, at_context, ap (s.heap).block j)

  popped_i : (popped.heap).block a.invocation ≡ some (invocation v)
  popped_i = update_ne (s.heap).block r _ a.invocation i_r ∙ at_i

  popped_c : (popped.heap).block a.context ≡ some callback_context
  popped_c = update_ne (s.heap).block r _ a.context c_r ∙ at_context

  freed_i : ((write popped a.context none).heap).block a.invocation ≡ some (invocation v)
  freed_i = update_ne (popped.heap).block a.context _ a.invocation i_c ∙ popped_i

  -- A return from the innermost invocation is accepted, ends exactly that activation, and gives
  -- its context and its invocation back.
  pub return_from-innermost : return_from r a.invocation (a ∷ live) s ≡ ok live returned_state
  unfolding return_from jump callback_frontend_resume
  return_from-innermost =
      let (ni, nc, (w, e, prev, pay), ctx, out_i, out_c, rest) = (inv.on).stack in
      rw
        (
          return_invocation-accepted r live s a inv.on,
          load-ok popped a.invocation (invocation w) ni
              (update_ne (s.heap).block r _ a.invocation i_r ∙ e) as_invocation w refl,
          pay,
        )
        ground
        (
          arith,
          free-ok popped a.context callback_context nc popped_c,
          free-ok (write popped a.context none) a.invocation (invocation v) ni freed_i,
        )

  w_r : State W
  w_r = write s r (some (same_thread_runner (top live)))

  uses_ne : (p q : Ptr) → uses p live ≡ false → uses q live ≡ true → q ≢ p
  uses_ne p q out i j = cc (out, i, ap (λ x. uses x live) j)

  -- What the return leaves is as well-formed as what it found.
  pub returned-Inv : Inv r semaphore index returned_state live
  returned-Inv =
      let (ni, nc, (w, e, prev, pay), ctx, out_i, out_c, rest) = (inv.on).stack in
      let b1 = (popped.heap).block in
      let b2 = ((write popped a.context none).heap).block in
      let q = s.callback_queue in
      let world = vm.exit_interpreter_to_callback a.context (answered vm.true_object s.world) in
      let sem_r : r ≢ semaphore =
        λ j. cc (inv.on.shape, inv.pending.is_pharo.shape, ap (s.heap).block j) in
      let p1 =
        IsPending-write q semaphore index inv.cells s r _ _ inv.pending inv.on.shape tt sem_r in
      let p2 =
        IsPending-world q semaphore index inv.cells
          (write s r (some (same_thread_runner (top live)))) world p1 in
      let sem_c : a.context ≢ semaphore = λ j. cc (popped_c, p2.is_pharo.shape, ap b1 j) in
      let p3 =
        IsPending-write q semaphore index inv.cells popped a.context _ none p2 popped_c tt sem_c in
      let sem_i : a.invocation ≢ semaphore = λ j. cc (freed_i, p3.is_pharo.shape, ap b2 j) in
      let p4 =
        IsPending-write q semaphore index inv.cells (write popped a.context none) a.invocation _
          none p3 freed_i tt sem_i in
      record {
        on = record {
          ne_null = inv.on.ne_null;
          shape =
              update_ne b2 a.invocation none r (λ j. i_r (sym j))
              ∙ update_ne b1 a.context none r (λ j. c_r (sym j))
              ∙ ground arith;
          stack =
              IsStack-frame (s.heap).block (returned_state.heap).block live
                (λ p u.
                  update_ne b2 a.invocation none p (uses_ne a.invocation p out_i u)
                  ∙ update_ne b1 a.context none p (uses_ne a.context p out_c u)
                  ∙ update_ne (s.heap).block r _ p (
                      uses_ne r p (unused-runner (s.heap).block (a ∷ live) r live inv.on.shape rest)
                        u))
                rest;
        };
        cells = inv.cells;
        pending = p4;
        queue_ne_null = inv.queue_ne_null;
      }

-- What `return_from` can do with the address `i`.
pub data Returned {W : Type 0} (r semaphore index i : Ptr) (live : List Activation) (s : State W)
    : Run W (List Activation) → Type 0 where
  -- the innermost activation ends
  accepted :
      (a : Activation) (rest : List Activation) (t : State W)
      → live ≡ a ∷ rest
      → i ≡ a.invocation
      → Inv r semaphore index t rest
      → Returned r semaphore index i live s (ok rest t)
  -- only the world learns of it
  refused :
      (w : W) → i ≢ top live → Returned r semaphore index i live s (stop (record s { world = w }))

module _ {W : Type 0} ⦃vm : Vm W⦄ (r semaphore index : Ptr) where
  return_from-same :
      (i : Ptr) (live : List Activation) (s : State W)
      → i ≢ null
      → Inv r semaphore index s live
      → i ≡ top live
      → Returned r semaphore index i live s (return_from r i live s)
  return_from-same i [] s real inv e = absurd (real e)
  return_from-same i (a ∷ rest) s real inv e =
      subst (λ k. Returned r semaphore index k (a ∷ rest) s (return_from r k (a ∷ rest) s)) (sym e)
        (rw (return_from-innermost r semaphore index a rest s inv) (
          accepted a rest (returned_state r semaphore index a rest s inv) refl refl
            (returned-Inv r semaphore index a rest s inv)))

  -- In a well-formed state a return from any invocation but `NULL` either ends the innermost
  -- activation, whose invocation it then is, and leaves a well-formed state, or is refused and
  -- leaves the memory as it is.
  pub return_from-Returned :
      (i : Ptr) (live : List Activation) (s : State W)
      → i ≢ null
      → Inv r semaphore index s live
      → Returned r semaphore index i live s (return_from r i live s)
  unfolding return_from
  return_from-Returned i live s real inv = elim (ℕ_discrete i (top live)) [
    | no differ ↦
        rw (return_invocation-refused r live s i inv.on differ)
          (refused (answered vm.false_object s.world) differ)
    | yes e ↦ return_from-same i live s real inv e
  ]

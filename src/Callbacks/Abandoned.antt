-- ===== src/Callbacks/Abandoned.antt =====
-- A callback on the same-thread runner whose interpreter comes back to its C caller.
use threaded_ffi_plugin.Prelude.{◌≡◌, ◌≢◌, ap, ◌∙◌, none, some, List, ◌∷◌, arith}
use threaded_ffi_plugin.Machine.{Ptr, invocation, callback_context, State, ok, fault, write, load}
use threaded_ffi_plugin.Machine.Access.{free-ok}
use threaded_ffi_plugin.Host.{Vm}
use threaded_ffi_plugin.Utils.{primitive_end_return}
use threaded_ffi_plugin.Queue.Contents.{update_ne}
use threaded_ffi_plugin.Callbacks.{callback_frontend_abandon, return_invocation, get_callback_stack}
use threaded_ffi_plugin.Callbacks.Stack.{Activation, RunsOn, same_thread_runner}

module _ {W : Type 0} ⦃vm : Vm W⦄ (r i context : Ptr) (live : List Activation) (s : State W)
    (on : RunsOn (s.heap).block r (record { invocation = i; context = context } ∷ live)) where
  abbrev pub abandoned : State W
  abandoned = write s i none

  i_r : r ≢ i
  i_r j = cc (((on).stack).2.1, on.shape, ap (s.heap).block j)

  -- Where the interpreter comes back from a callback on the same-thread runner, `callbackFrontend`
  -- returns; the runner still has the invocation, which is gone with its C frame, for the top of its
  -- stack, the context is never given back, and the return of the invocation by the image is
  -- undefined behaviour.
  pub abandon-dangles :
      (callback_frontend_abandon i context s ≡ ok tt abandoned)
      × ((abandoned.heap).block r ≡ some (same_thread_runner i))
      × ((abandoned.heap).block i ≡ none)
      × ((abandoned.heap).block context ≡ some callback_context)
      × (return_invocation r i abandoned ≡ fault)
  unfolding callback_frontend_abandon return_invocation get_callback_stack load primitive_end_return
  abandon-dangles =
      let (ni, nc, (v, e, prev, pay), ctx, out_i, out_c, rest) = on.stack in
      let at_r : (abandoned.heap).block r ≡ some (same_thread_runner i) =
        update_ne (s.heap).block i none r i_r ∙ on.shape in
      let c_i : context ≢ i = λ j. cc (e, ctx, ap (s.heap).block j) in
      (
        free-ok s i (invocation v) ni e,
        at_r,
        ground arith,
        update_ne (s.heap).block i none context c_i ∙ ctx,
        ground (arith, on.ne_null, at_r, ni),
      )

-- ===== src/Callbacks/Session.antt =====
-- The same-thread runner as a system: foreign functions call callbacks, the image reads the queue
-- of pending ones and returns from them in whatever order it likes.
pub mod Return
pub mod Invariant
use threaded_ffi_plugin.Prelude.{ℕ, ◌≡◌, ◌≢◌, ◌≤◌, some, List, [], ◌∷◌, ◌==◌, if◌then◌else◌}
use threaded_ffi_plugin.Machine.{
  Ptr, null, Callback, callback, as_invocation, State, Cmd, ok, stop, fault, pure, ◌>>=◌, ◌>>◌,
  defined, load,
}
use threaded_ffi_plugin.Host.{Vm}
use threaded_ffi_plugin.Callbacks.{
  callback_frontend_on_same_thread, callback_frontend_resume, queue_next_pending_callback,
  return_invocation,
}
use threaded_ffi_plugin.Callbacks.Stack.{Activation}

-- `siglongjmp` to a context drops every activation down to the one that waits there, and goes on
-- in that one. There is nothing to go on with where none waits there.
unfoldable pub jump : {W : Type 0} → Ptr → List Activation → Cmd W (List Activation)
jump context [] = λ _. fault
jump context (a ∷ live) = do
  let rest = jump context live
  if a.context == context
      then (do callback_frontend_resume a.invocation context; pure live)
      else rest

-- The memory, and the activations of `callbackFrontend` on the C stack, innermost first.
pub record Session (W : Type 0) : Type 0 where
  pub state : State W
  pub live : List Activation

module _ {W : Type 0} ⦃vm : Vm W⦄ where
  -- The image returns from the invocation at `i`: where the primitive accepts that, the virtual
  -- machine jumps to the payload of the invocation. It gives the activations that are left.
  unfoldable pub return_from : (r i : Ptr) → List Activation → Cmd W (List Activation)
  unfolding jump
  return_from r i live = do
    return_invocation r i
    this ← load as_invocation i
    context ← defined this.payload
    jump context live

  -- `r` is the address of `sameThreadRunner`. Between the steps the world changes as it likes. The
  -- primitive that returns refuses `NULL` before it comes to `return_from`.
  pub data Step (r : Ptr) (x y : Session W) : Type 0 where
    enter :
        (cb ret args : Ptr) (c : Callback) (a : Activation)
        → cb ≢ null
        → ((x.state).heap).block cb ≡ some (callback c)
        → c.runner ≡ some r
        → 2 ≤ ((x.state).heap).budget
        → callback_frontend_on_same_thread cb ret args x.state
          ≡ ok (a.invocation, a.context) y.state
        → y.live ≡ a ∷ x.live
        → Step r x y
    refused :
        (i : Ptr)
        → i ≢ null
        → return_from r i x.live x.state ≡ stop y.state
        → y.live ≡ x.live
        → Step r x y
    returned :
        (i : Ptr) → i ≢ null → return_from r i x.live x.state ≡ ok y.live y.state → Step r x y
    poll :
        (p : Ptr)
        → queue_next_pending_callback x.state ≡ ok p y.state
        → y.live ≡ x.live
        → Step r x y
    outside : (w : W) → y.state ≡ record (x.state) { world = w } → y.live ≡ x.live → Step r x y

  pub data Steps (r : Ptr) (x : Session W) : Session W → Type 0 where
    here : Steps r x x
    later : {y z : Session W} → Steps r x y → Step r y z → Steps r x z

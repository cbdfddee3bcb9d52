-- ===== src/Callbacks/Stack.antt =====
-- The stack of invocations of a runner, and what a return does to it.
use threaded_ffi_plugin.Prelude.{
  ℕ, ◌+◌, ◌≡◌, ◌≢◌, refl, ap, ◌∙◌, Bool, true, false, ◌||◌, some, List, [], ◌∷◌, ◌==◌, arith,
}
use threaded_ffi_plugin.Machine.{
  Ptr, null, Block, same_thread_enter, same_thread_exit, same_thread_prepare, runner, invocation,
  callback_context, as_runner, as_runner_block, as_invocation, CallbackInvocation, State, ok, stop,
  write,
}
use threaded_ffi_plugin.Machine.Access.{load-ok, store-ok}
use threaded_ffi_plugin.Host.{Vm}
use threaded_ffi_plugin.Utils.{primitive_end_return}
use threaded_ffi_plugin.Queue.Cells.{Blocks}
use threaded_ffi_plugin.Callbacks.{return_invocation}

-- An activation of `callbackFrontend` on the C stack: its invocation, and the context that
-- `sameThreadCallbackEnter` waits in.
pub record Activation : Type 0 where
  pub invocation : Ptr
  pub context : Ptr

abbrev pub top : List Activation → Ptr
top [] = null
top (a ∷ _) = a.invocation

-- `p` is the invocation or the context of one of the activations
abbrev pub uses : Ptr → List Activation → Bool
uses p [] = false
uses p (a ∷ live) = (p == a.invocation) || (p == a.context) || uses p live

-- The invocations of the activations, innermost first, are chained by `previous`, and each has its
-- own context for a payload.
abbrev pub IsStack : Blocks → List Activation → Type 0
IsStack b [] = Unit {0}
IsStack b (a ∷ live) =
    (a.invocation ≢ null)
    × (a.context ≢ null)
    × ((v : CallbackInvocation) × (b a.invocation ≡ some (invocation v))
        × (v.previous ≡ top live)
        × (v.payload ≡ some a.context))
    × (b a.context ≡ some callback_context)
    × (uses a.invocation live ≡ false)
    × (uses a.context live ≡ false)
    × IsStack b live

-- `sameThreadRunner` with its stack
abbrev pub same_thread_runner : Ptr → Block
same_thread_runner stack = runner (record {
  callback_enter_function = same_thread_enter;
  callback_exit_function = same_thread_exit;
  callback_prepare_invocation = same_thread_prepare;
  callback_stack = stack;
})

pub record RunsOn (b : Blocks) (r : Ptr) (live : List Activation) : Type 0 where
  pub ne_null : r ≢ null
  pub shape : b r ≡ some (same_thread_runner (top live))
  pub stack : IsStack b live

-- The chain stands where the blocks of the activations do.
pub IsStack-frame :
    (b c : Blocks) (live : List Activation)
    → ((p : Ptr) → uses p live ≡ true → c p ≡ b p)
    → IsStack b live
    → IsStack c live
IsStack-frame b c [] same is = tt
IsStack-frame b c (a ∷ live) same (ni, nc, (v, e, prev, pay), ctx, out_i, out_c, rest) = (
  ni,
  nc,
  (v, same a.invocation (ground arith) ∙ e, prev, pay),
  same a.context (ground arith) ∙ ctx,
  out_i,
  out_c,
  IsStack-frame b c live (λ p i. same p (ground arith)) rest,
)

-- the world after a primitive has answered `o`
abbrev pub answered : {W : Type 0} ⦃vm : Vm W⦄ → (W → ℕ) → W → W
answered ⦃vm⦄ o w = vm.push (o w) (vm.pop (vm.method_argument_count w + 1) w)

module _ {W : Type 0} ⦃vm : Vm W⦄ (r : Ptr) (live : List Activation) (s : State W) where
  -- An invocation that is not the innermost one is refused: `false` is answered, and the memory of
  -- the plugin stays as it is.
  pub return_invocation-refused :
      (i : Ptr)
      → RunsOn (s.heap).block r live
      → i ≢ top live
      → return_invocation r i s ≡ stop (record s { world = answered vm.false_object s.world })
  unfolding return_invocation primitive_end_return
  return_invocation-refused i on differ =
      rw (load-ok s r (same_thread_runner (top live)) on.ne_null on.shape as_runner _ refl)
        (ground arith)

  -- The innermost invocation is accepted: `true` is answered, the invocation is popped, and the
  -- image leaves for the context that waits in that invocation.
  pub return_invocation-accepted :
      (a : Activation)
      → RunsOn (s.heap).block r (a ∷ live)
      → return_invocation r a.invocation s
        ≡ ok tt (record (write s r (some (same_thread_runner (top live)))) {
          world = vm.exit_interpreter_to_callback a.context (answered vm.true_object s.world);
        })
  unfolding return_invocation primitive_end_return
  return_invocation-accepted a on =
      let (ni, nc, (v, e, prev, pay), ctx, out_i, out_c, rest) = on.stack in
      let w = answered vm.true_object s.world in
      let s1 : State W = record s { world = w } in
      let s2 : State W = write s1 r (some (same_thread_runner (top live))) in
      let i_r : a.invocation ≢ r = λ j. cc (e, on.shape, ap (s.heap).block j) in
      rw (load-ok s r (same_thread_runner a.invocation) on.ne_null on.shape as_runner _ refl) (
        ground (
          arith,
          prev,
          pay,
          load-ok s1 a.invocation (invocation v) ni e as_invocation v refl,
          load-ok s1 r (same_thread_runner a.invocation) on.ne_null on.shape as_runner_block
              (same_thread_runner a.invocation) refl,
          store-ok s1 r (same_thread_runner a.invocation) on.ne_null on.shape
              (same_thread_runner (top live)),
          load-ok s2 r (same_thread_runner (top live)) on.ne_null (ground arith) as_runner _ refl,
          load-ok s2 a.invocation (invocation v) ni (ground arith) as_invocation v refl,
        ))

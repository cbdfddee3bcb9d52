-- ===== src/Worker/Reentry.antt =====
-- The wait of a callback that comes from the worker's own thread, out of one of its callouts.
use mathlib.Core.Path.{subst}
use mathlib.Core.List.{append-nil}
use threaded_ffi_plugin.Prelude.{
  ℕ, suc, ◌+◌, ◌<◌, ◌≡◌, ◌≢◌, refl, ap, ◌∙◌, false, some, List, [], ◌∷◌, ◌++◌, map, arith,
  if◌then◌else◌, length, length-append, length-map,
}
use threaded_ffi_plugin.Machine.{
  Ptr, null, CallbackInvocation, invocation, as_invocation, State, ok, blocked,
}
use threaded_ffi_plugin.Machine.Access.{load-ok}
use threaded_ffi_plugin.Host.{Vm, Ffi}
use threaded_ffi_plugin.Queue.Cells.{Cells}
use threaded_ffi_plugin.Worker.{worker_enter_callback}
use threaded_ffi_plugin.Worker.Tasks.{Request, return_here, IsReady, effects, returns}
use threaded_ffi_plugin.Worker.Beside.{KeepsRunner}
use threaded_ffi_plugin.Worker.Frames.{no_cells-IsReady}
use threaded_ffi_plugin.Worker.Calls.{Call, request}
use threaded_ffi_plugin.Worker.Requests.{served-append, left-append, returns-append, returns-calls}
use threaded_ffi_plugin.Worker.Return.{with_payload}
use threaded_ffi_plugin.Worker.Run.{run-Ran}

module _ {W : Type 0} ⦃vm : Vm W⦄ ⦃ffi : Ffi W⦄ (w q semaphore h i : Ptr) (x : CallbackInvocation)
    (cs : List Call) where
  -- Once the image has answered, the wait serves what is in the queue up to the return.
  pub answered-enter :
      (fuel : ℕ) (cells : Cells) (rs : List Request) (s : State W)
      → IsReady s w q semaphore h cells ((rs ++ map request cs) ++ return_here ∷ [])
      → returns rs ≡ false
      → length rs + suc (length cs) < fuel
      → i ≢ null
      → (s.heap).block i ≡ some (invocation (with_payload x null))
      → (s' : State W) × (worker_enter_callback fuel w i s ≡ ok tt s')
        × (s'.world ≡ effects (rs ++ map request cs) s.world)
        × IsReady s' w q semaphore h [] []
        × ((s'.heap).block i ≡ some (invocation (with_payload x null)))
        × KeepsRunner s s' w
  unfolding worker_enter_callback
  answered-enter fuel cells rs s is ends more real at =
      let all = rs ++ map request cs in
      let no_return = returns-append (map request cs) rs ends ∙ returns-calls cs in
      let comes_back = returns-append (return_here ∷ []) all no_return in
      let all_served = served-append (return_here ∷ []) all no_return ∙ append-nil all in
      let none_left = left-append (return_here ∷ []) all no_return in
      let counted = length-append rs (map request cs) in
      let longer = length-append all (return_here ∷ []) in
      let (s', e, ran) =
        run-Ran w q semaphore h cells _ s is fuel
          (omega (arith, counted, longer, length-map request cs, more)) in
      (
        s',
        rw
            (load-ok s i (invocation (with_payload x null)) real at as_invocation
              (with_payload x null) refl)
            (e ∙ ap (λ b. if b then ok tt s' else blocked s') comes_back),
        ran.world ∙ ap (λ z. effects z s.world) all_served,
        no_cells-IsReady s' w q semaphore h ran.cells
            (subst (IsReady s' w q semaphore h ran.cells) none_left ran.ready),
        ran.beside i _ tt at,
        ran.runner,
      )

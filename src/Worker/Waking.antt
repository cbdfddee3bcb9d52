-- ===== src/Worker/Waking.antt =====
-- How a worker wakes a thread that waits for the return of a callback.
use mathlib.Core.Path.{subst}
use threaded_ffi_plugin.Prelude.{
  ℕ, suc, ◌+◌, ◌<◌, ◌≡◌, ◌≢◌, sym, ap, ◌∙◌, false, none, some, List, [], ◌∷◌, ◌++◌, map, arith,
  if◌then◌else◌, length, length-append, length-map,
}
use threaded_ffi_plugin.Machine.{Ptr, sem, State, ok, blocked, write}
use threaded_ffi_plugin.Host.{Vm, Ffi}
use threaded_ffi_plugin.Semaphores.Wait.{IsPlatform, settled}
use threaded_ffi_plugin.Queue.Cells.{Cells}
use threaded_ffi_plugin.Queue.Contents.{update_ne}
use threaded_ffi_plugin.Worker.{worker_run}
use threaded_ffi_plugin.Worker.Tasks.{Request, return_to, IsReady, effects, returns, signals}
use threaded_ffi_plugin.Worker.Beside.{Besides}
use threaded_ffi_plugin.Worker.Serve.{IsPlatform-moved}
use threaded_ffi_plugin.Worker.Frames.{no_cells-IsReady, IsReady-Stays}
use threaded_ffi_plugin.Worker.Calls.{Call, request}
use threaded_ffi_plugin.Worker.Requests.{
  served-append, left-append, returns-append, signals-append, effects-append, returns-calls,
  signals-calls,
}
use threaded_ffi_plugin.Worker.Await.{idle-write}
use threaded_ffi_plugin.Worker.Run.{run-Ran}

module _ {W : Type 0} ⦃vm : Vm W⦄ ⦃ffi : Ffi W⦄ (w q semaphore h p r : Ptr) (cs : List Call) where
  -- The worker serves the requests, and the return behind them signals the semaphore at `p` once.
  pub answered-run :
      (fuel : ℕ) (cells : Cells) (rs : List Request) (s : State W)
      → IsReady s w q semaphore h cells ((rs ++ map request cs) ++ return_to p r ∷ [])
      → returns rs ≡ false
      → signals r rs ≡ 0
      → IsPlatform s p r 0
      → r ≢ h
      → length rs + suc (length cs) < fuel
      → (u : State W) × (worker_run fuel w s ≡ blocked u)
        × (u.world ≡ effects (rs ++ map request cs) s.world)
        × IsReady u w q semaphore h [] []
        × IsPlatform u p r 1
        × Besides s u
  answered-run fuel cells rs s is ends none_yet platform r_h more =
      let all = rs ++ map request cs in
      let last = return_to p r ∷ [] in
      let no_return = returns-append (map request cs) rs ends ∙ returns-calls cs in
      let goes_on = returns-append last all no_return in
      let all_served = served-append last all no_return in
      let none_left = left-append last all no_return in
      let one : signals r last ≡ 1 = ground arith in
      let once : signals r (all ++ last) ≡ 1 = omega (
        arith,
        signals-append last r all,
        signals-append (map request cs) r rs,
        signals-calls r cs,
        none_yet,
        one,
      ) in
      let (u, e, ran) = run-Ran w q semaphore h cells _ s is fuel (
        omega (
          arith,
          length-append rs (map request cs),
          length-append all last,
          length-map request cs,
          more,
        )) in
      (
        u,
        e ∙ ap (λ b. if b then ok tt u else blocked u) goes_on,
        ran.world ∙ ap (λ z. effects z s.world) all_served ∙ effects-append last all s.world,
        no_cells-IsReady u w q semaphore h ran.cells
            (subst (IsReady u w q semaphore h ran.cells) none_left ran.ready),
        IsPlatform-moved s u p r 0 1 platform
            (ran.beside p _ tt platform.shape ∙ sym platform.shape)
            (ran.counts r 0 r_h platform.counts
              ∙ ap (λ z. some (sem (0 + signals r z))) all_served
              ∙ ap (λ n. some (sem n)) (omega (arith, once))),
        ran.beside,
      )

-- The semaphore that a waiting thread gives back was none of the worker's.
pub freed-IsReady :
    {W : Type 0} (s : State W) (w q semaphore h p r : Ptr)
    → IsReady s w q semaphore h [] []
    → IsPlatform s p r 1
    → w ≢ p
    → w ≢ r
    → p ≢ semaphore
    → r ≢ semaphore
    → p ≢ h
    → r ≢ h
    → IsReady
        (write (write (write (settled s) r (some (sem 0))) r none) p none)
        w
        q
        semaphore
        h
        []
        []
freed-IsReady s w q semaphore h p r is platform w_p w_r p_s r_s p_h r_h =
    let p_r : p ≢ r = λ j. cc (platform.shape, platform.counts, ap (s.heap).block j) in
    let b0 = settled s in
    let is0 = IsReady-Stays s b0 (λ z y f e. e) w q semaphore h [] [] is.channel.is_heap is in
    let b1 = write b0 r (some (sem 0)) in
    let is1 = idle-write b0 w q semaphore h r _ (some (sem 0)) is0 platform.counts tt w_r r_s r_h in
    let b2 = write b1 r none in
    let at_r : (b1.heap).block r ≡ some (sem 0) = ground arith in
    let is2 = idle-write b1 w q semaphore h r _ none is1 at_r tt w_r r_s r_h in
    idle-write b2 w q semaphore h p _ none is2
      (update_ne (b1.heap).block r none p p_r
        ∙ update_ne (s.heap).block r (some (sem 0)) p p_r
        ∙ platform.shape)
      tt w_p p_s p_h

-- ===== src/Worker/Await.antt =====
-- `worker_enter_callback` for an invocation that has a semaphore, and what its wait leaves.
use threaded_ffi_plugin.Prelude.{
  ℕ, ◌≡◌, ◌≢◌, refl, ap, ◌∙◌, Option, none, some, List, [], ◌∷◌, ◌==◌, false, arith,
}
use threaded_ffi_plugin.Machine.{
  Ptr, null, Block, CallbackInvocation, invocation, as_invocation, as_semaphore, semaphore, sem,
  platform_wait, platform_signal, platform_free, State, ok, blocked, write,
}
use threaded_ffi_plugin.Machine.Access.{load-ok, free-ok}
use threaded_ffi_plugin.Host.{Vm, Ffi}
use threaded_ffi_plugin.Semaphores.{release, call_free, platform_semaphore_free, semaphore_release}
use threaded_ffi_plugin.Semaphores.Wait.{IsPlatform, settled, wait-suc, wait-zero}
use threaded_ffi_plugin.Queue.Cells.{Cells}
use threaded_ffi_plugin.Queue.Contents.{IsOther, update_ne}
use threaded_ffi_plugin.Queue.Channel.{IsChannel-write}
use threaded_ffi_plugin.Worker.{worker_enter_callback}
use threaded_ffi_plugin.Worker.Tasks.{
  Request, call, return_to, return_here, AreTasks, IsReady, signals,
}
use threaded_ffi_plugin.Worker.Return.{with_payload}

-- Queued requests signal no address that is still free.
pub signals-fresh :
    {W : Type 0} (s : State W) (h room p : ℕ) (cells : Cells) (rs : List Request)
    → (s.heap).block p ≡ none
    → AreTasks s h room cells rs
    → signals p rs ≡ 0
signals-fresh s h room p cells [] free a = refl
signals-fresh s h room p [] (r ∷ rs) free a = elim a [ ]
signals-fresh s h room p (c ∷ cells) (call f d b r i ∷ rs) free (_, _, _, _, rest) =
    signals-fresh s h room p cells rs free rest
signals-fresh s h room p (c ∷ cells) (return_here ∷ rs) free (_, _, _, _, rest) =
    signals-fresh s h room p cells rs free rest
signals-fresh s h room p (c ∷ cells) (return_to b r ∷ rs) free (_, _, (n, is, _, _), _, rest) =
    let apart : r ≢ p = λ j. cc (free, is.counts, ap (s.heap).block j) in
    ground (arith, signals-fresh s h room p cells rs free rest)

-- A worker with nothing to do does not depend on other semaphores.
pub idle-write :
    {W : Type 0} (s : State W) (w q counter h p : Ptr) (x : Block) (y : Option Block)
    → IsReady s w q counter h [] []
    → (s.heap).block p ≡ some x
    → IsOther (some x)
    → w ≢ p
    → p ≢ counter
    → p ≢ h
    → IsReady (write s p y) w q counter h [] []
idle-write s w q counter h p x y is at o w_p p_s p_h = record {
  ne_null = is.ne_null;
  this = is.this;
  shape = update_ne (s.heap).block p y w w_p ∙ is.shape;
  task_queue = is.task_queue;
  channel = IsChannel-write q counter h [] s p x y is.channel at o p_s p_h;
  tasks = tt;
}

module _ {W : Type 0} ⦃vm : Vm W⦄ ⦃ffi : Ffi W⦄ (fuel : ℕ) (w i p r : Ptr) (x : CallbackInvocation)
    (s : State W) (i_real : i ≢ null)
    (at_i : (s.heap).block i ≡ some (invocation (with_payload x p))) where
  -- Until its semaphore is signalled the invocation waits.
  pub enter-waits : IsPlatform s p r 0 → worker_enter_callback fuel w i s ≡ blocked (settled s)
  unfolding worker_enter_callback
  enter-waits is =
      let real : (p == null) ≡ false = ground (arith, is.ne_null) in
      rw
        (
          load-ok s i (invocation (with_payload x p)) i_real at_i as_invocation (with_payload x p)
              refl,
          real,
          wait-zero p r s is,
        )
        refl

  abbrev handle_block : Block
  handle_block =
      semaphore (record {
        handle = r;
        wait = platform_wait;
        signal = platform_signal;
        free = platform_free;
      })

  abbrev waited : State W
  waited = write (settled s) r (some (sem 0))

  -- the state behind the wait: both blocks of the semaphore are given back
  abbrev pub resumed : State W
  resumed = write (write waited r none) p none

  -- Once it is signalled it goes on, and gives the semaphore back.
  pub enter-resumes : IsPlatform s p r 1 → worker_enter_callback fuel w i s ≡ ok tt resumed
  unfolding worker_enter_callback release call_free platform_semaphore_free semaphore_release
  enter-resumes is =
      let real : (p == null) ≡ false = ground (arith, is.ne_null) in
      let p_r : p ≢ r = λ j. cc (is.shape, is.counts, ap (s.heap).block j) in
      let at_p : (waited.heap).block p ≡ some handle_block =
        update_ne (s.heap).block r (some (sem 0)) p p_r ∙ is.shape in
      let at_p' : ((write waited r none).heap).block p ≡ some handle_block =
        update_ne (waited.heap).block r none p p_r ∙ at_p in
      rw
        (
          load-ok s i (invocation (with_payload x p)) i_real at_i as_invocation (with_payload x p)
              refl,
          real,
          wait-suc p r 0 s is,
          load-ok waited p handle_block is.ne_null at_p as_semaphore _ refl,
          load-ok waited p handle_block is.ne_null at_p as_semaphore _ refl,
          free-ok waited r (sem 0) is.handle_ne_null (ground arith),
          free-ok (write waited r none) p handle_block is.ne_null at_p',
        )
        refl

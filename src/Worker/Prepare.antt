-- ===== src/Worker/Prepare.antt =====
-- `worker_callback_prepare` on the worker's own thread and on another.
use threaded_ffi_plugin.Prelude.{◌+◌, ◌≤◌, ◌≡◌, ◌≢◌, refl, ap, false, ◌==◌, some, arith}
use threaded_ffi_plugin.Machine.{
  Ptr, null, CallbackInvocation, invocation, worker, Worker, raw, sem, semaphore, platform_wait,
  platform_signal, platform_free, as_worker, as_invocation, State, ok, write,
}
use threaded_ffi_plugin.Machine.Access.{allocated, malloc-ok, load-ok, store-ok}
use threaded_ffi_plugin.Semaphores.{platform_semaphore_new, semaphore_new}
use threaded_ffi_plugin.Semaphores.Wait.{IsPlatform}
use threaded_ffi_plugin.Queue.Cells.{IsHeap}
use threaded_ffi_plugin.Worker.{set_payload, worker_callback_prepare}
use threaded_ffi_plugin.Queue.Frames.{IsHeap-write, IsHeap-allocated}
use threaded_ffi_plugin.Worker.Frames.{Stays, Stays-Stays, Stays-write, Stays-allocated}
use threaded_ffi_plugin.Worker.Return.{with_payload}

module _ {W : Type 0} (w i : Ptr) (this : Worker) (x : CallbackInvocation) (s : State W)
    (w_real : w ≢ null) (at_w : (s.heap).block w ≡ some (worker this)) (i_real : i ≢ null)
    (at_i : (s.heap).block i ≡ some (invocation x)) where
  -- On the worker's own thread the invocation gets no semaphore.
  pub prepare-own :
      this.self_thread ≡ s.thread
      → worker_callback_prepare w i s ≡ ok tt (write s i (some (invocation (with_payload x null))))
  unfolding worker_callback_prepare set_payload
  prepare-own own = rw (load-ok s w (worker this) w_real at_w as_worker this refl) (
      ground (
        arith,
        load-ok s i (invocation x) i_real at_i as_invocation x refl,
        store-ok s i (invocation x) i_real at_i (invocation (with_payload x null)),
      ))

  abbrev n : Ptr
  n = (s.heap).next

  abbrev a2 : State W
  a2 = allocated (allocated s (some raw)) (some raw)

  abbrev a3 : State W
  a3 = write a2 (n + 1) (some (sem 0))

  abbrev a4 : State W
  a4 = write a3 n (
      some (
        semaphore (record {
          handle = n + 1;
          wait = platform_wait;
          signal = platform_signal;
          free = platform_free;
        })))

  -- the state with a new semaphore at `n` for the invocation
  abbrev pub awaiting : State W
  awaiting = write a4 i (some (invocation (with_payload x n)))

  module _ (heap : IsHeap s.heap) where
    old_ne : (p : Ptr) → n ≤ p → i ≢ p
    old_ne p le j = cc (at_i, heap.fresh p le, ap (s.heap).block j)

    pub awaiting-IsPlatform : IsPlatform awaiting n (n + 1) 0
    awaiting-IsPlatform =
        let i_n = old_ne n (omega arith) in
        let i_n1 = old_ne (n + 1) (omega arith) in
        record {
          ne_null = omega (arith, heap.next_pos);
          handle_ne_null = omega arith;
          shape = ground arith;
          counts = ground arith;
        }

    at_a4 : (a4.heap).block i ≡ some (invocation x)
    at_a4 =
        let i_n = old_ne n (omega arith) in
        let i_n1 = old_ne (n + 1) (omega arith) in ground (arith, at_i)

    pub awaiting-Stays : Stays s awaiting
    awaiting-Stays =
        Stays-Stays s a2 awaiting
          (Stays-Stays s (allocated s (some raw)) a2 (Stays-allocated s (some raw) heap) (
            Stays-allocated (allocated s (some raw)) (some raw)
              (IsHeap-allocated s (some raw) heap)))
          (Stays-Stays a2 a3 awaiting (Stays-write a2 (n + 1) _ (ground arith)) (
            Stays-Stays a3 a4 awaiting (Stays-write a3 n _ (ground arith))
              (Stays-write a4 i _ (rw at_a4 λ b. b))))

    pub awaiting-IsHeap : IsHeap awaiting.heap
    awaiting-IsHeap =
        let heap1 = IsHeap-allocated s (some raw) heap in
        let heap2 = IsHeap-allocated (allocated s (some raw)) (some raw) heap1 in
        let heap3 = IsHeap-write a2 (n + 1) (some (sem 0)) raw heap2 (ground arith) in
        let heap4 = IsHeap-write a3 n _ raw heap3 (ground arith) in
        IsHeap-write a4 i _ (invocation x) heap4 at_a4

    -- On any other thread it gets a new one that counts nothing.
    pub prepare-other :
        this.self_thread ≢ s.thread
        → 2 ≤ (s.heap).budget
        → worker_callback_prepare w i s ≡ ok tt awaiting
    unfolding worker_callback_prepare set_payload platform_semaphore_new semaphore_new
    prepare-other other memory =
        let differ : (this.self_thread == s.thread) ≡ false = ground arith in
        rw
          (
            load-ok s w (worker this) w_real at_w as_worker this refl,
            differ,
            malloc-ok s (omega (arith, memory)),
            malloc-ok (allocated s (some raw)) (omega (arith, memory)),
            store-ok a2 (n + 1) raw (omega arith) (ground arith) (sem 0),
            store-ok a3 n raw (omega (arith, heap.next_pos)) (ground arith) (semaphore _),
            load-ok a4 i (invocation x) i_real at_a4 as_invocation x refl,
            store-ok a4 i (invocation x) i_real at_a4 (invocation (with_payload x n)),
          )
          refl

-- ===== src/TestLibrary/Loops.antt =====
-- The loops of callbacks.c and registerCallback.c, and the callback from another thread.
use threaded_ffi_plugin.Prelude.{
  ℕ, zero, suc, ◌-◌, ◌≡◌, ◌≢◌, refl, ap, ◌∙◌, ◌∷◌, arith, Bool, true, false, ◌==◌,
}
use threaded_ffi_plugin.Machine.{Ptr, State, ok, fault, and_then, ◌>>◌}
use threaded_ffi_plugin.Machine.Results.{and_then-ext}
use threaded_ffi_plugin.TestLibrary.Callbacks.{
  Library, SimpleCallback, loop, callback_in_a_loop, registered_loop, registered_callback_in_a_loop,
  register_callback, other_thread, get_value, callback_from_another_thread,
}

module _ {W : Type 0} (invoke : SimpleCallback W) (fun : Ptr) where
  -- No call of `fun` registers another function.
  abbrev pub KeepsRegistered : Type 0
  KeepsRegistered =
      (x y : ℕ) (s t : State (Library W))
      → invoke fun x s ≡ ok y t
      → t.world.registered_callback ≡ s.world.registered_callback

  module _ (keeps : KeepsRegistered) where
    registered_loop-loop :
        (count acc : ℕ) (s : State (Library W))
        → s.world.registered_callback ≡ fun
        → registered_loop invoke count acc s ≡ loop invoke count fun acc s
    unfolding registered_loop loop
    registered_loop-loop zero acc s e = refl
    registered_loop-loop (suc count) acc s e =
        ap (λ f. and_then (invoke f acc s) (registered_loop invoke count)) e
        ∙ (and_then-ext (invoke fun acc s) (registered_loop invoke count) (loop invoke count fun)
            (λ y t i. registered_loop-loop count y t (keeps acc y s t i ∙ e)))

    -- The loop over the registered callback is the loop over the function that was registered, however
    -- the function's calls end, as long as they register no other one.
    pub registered_callback_in_a_loop-callback_in_a_loop :
        (s : State (Library W))
        → (register_callback fun >> registered_callback_in_a_loop invoke) s
          ≡ (register_callback fun >> callback_in_a_loop invoke fun) s
    unfolding registered_callback_in_a_loop callback_in_a_loop register_callback
    registered_callback_in_a_loop-callback_in_a_loop s =
        registered_loop-loop 42 0
          (record s { world = record (s.world) { registered_callback = fun } }) refl

module _ {W : Type 0} (invoke : SimpleCallback W) (fun : Ptr) (s : State (Library W)) where
  -- Where a thread can be started, the value ends as what the call answers for 42, whether the thread is
  -- done before `pthread_create` comes back or runs later; in the second case the value is 0 until then.
  -- Where no thread can be started the behaviour is undefined.
  pub callback_from_another_thread_lem :
      ((at_once : Bool)
        → s.thread_budget ≡ 0
        → callback_from_another_thread invoke at_once fun s ≡ fault)
      × (s.thread_budget ≢ 0
          → (t : State (Library W)) × (callback_from_another_thread invoke false fun s ≡ ok tt t)
            × (t.started ≡ fun ∷ s.started)
            × (get_value t ≡ ok 0 t)
            × ((x : ℕ) (u : State (Library W))
                → invoke fun 42 t ≡ ok x u
                → (v : State (Library W)) × (other_thread invoke fun t ≡ ok tt v)
                  × (callback_from_another_thread invoke true fun s ≡ ok tt v)
                  × (get_value v ≡ ok x v)
                  × (v.heap ≡ u.heap)
                  × (v.world.rest ≡ u.world.rest)))
  unfolding callback_from_another_thread get_value other_thread
  callback_from_another_thread_lem = (
    λ at_once full. ground arith,
    λ more.
        let t : State (Library W) = record s {
          world = record (s.world) { value = 0 };
          thread_budget = s.thread_budget - 1;
          started = fun ∷ s.started;
        } in
        let some_left : (s.thread_budget == 0) ≡ false = ground (arith, more) in
        (
          t,
          rw some_left refl,
          refl,
          refl,
          λ x u i. (
            record u { world = record (u.world) { value = x } },
            rw i refl,
            rw (some_left, i) refl,
            refl,
            refl,
            refl,
          ),
        ),
  )

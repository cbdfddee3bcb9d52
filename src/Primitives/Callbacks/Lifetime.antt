-- ===== src/Primitives/Callbacks/Lifetime.antt =====
-- A callback from its creation to its release, as the two primitives make them.
use native.Mathlib.Decide.{ℕ_discrete}
use threaded_ffi_plugin.Prelude.{
  ℕ, ◌≡◌, ◌≢◌, refl, sym, ap, ◌∙◌, true, none, some, List, ◌==◌, if◌then◌else◌, inr, arith,
}
use threaded_ffi_plugin.Machine.{
  Ptr, null, Callback, callback, as_callback, pointers, State, ok, write, ◌>>=◌, ◌>>◌,
}
use threaded_ffi_plugin.Machine.Access.{load-ok, store-ok}
use threaded_ffi_plugin.Host.{Vm, Ffi}
use threaded_ffi_plugin.Queue.Cells.{IsHeap}
use threaded_ffi_plugin.Callbacks.{callback_new, callback_release}
use threaded_ffi_plugin.Callbacks.Creation.{creates, creation_world, made, callback_new_lem}
use threaded_ffi_plugin.Callbacks.Release.{Registered, callback_release_lem}
use threaded_ffi_plugin.Primitives.Callbacks.{set_user_data}

module _ {W : Type 0} ⦃vm : Vm W⦄ ⦃ffi : Ffi W⦄ (r parameters : Ptr) (types : List Ptr)
    (count return_type : ℕ) (s : State W) (heap : IsHeap s.heap) (room : (s.heap).budget ≢ 0)
    (real : parameters ≢ null) (at : (s.heap).block parameters ≡ some (pointers types)) where
  abbrev n : Ptr
  n = (s.heap).next

  -- A callback that libffi accepts, with no debug string, and its release leave the plugin's memory as
  -- it was without the array of types; and the last that libffi is asked is to free the closure.
  pub callback_release-callback_new :
      creates r parameters types count return_type s ≡ true
      → (u : State W) × ((callback_new r parameters count return_type >>= λ cb. (do
        set_user_data cb null
        callback_release cb))
            s
          ≡ ok tt u)
        × (u.world
            ≡ ffi.closure_free
                (ffi.closure_alloc s.world).0.0
                (creation_world r parameters types count return_type s))
        × ((q : Ptr) → (u.heap).block q ≡ (if q == parameters then none else (s.heap).block q))
  unfolding set_user_data
  callback_release-callback_new good =
      let (s1, run, world, but, _) =
        callback_new_lem r parameters types count return_type s heap room real (pointers types) at
          refl in
      let fresh = heap.fresh n (omega arith) in
      let n_real : n ≢ null = omega (arith, heap.next_pos) in
      let p_n : parameters ≢ n = λ j. cc (at, fresh, ap (s.heap).block j) in
      let blocks : (q : Ptr)
          → (s1.heap).block q ≡ (
              if q == n
              then some (made r parameters types count return_type s)
              else (s.heap).block q) =
        rw good at but in
      let c : Callback = record {
        runner = some r;
        user_data = none;
        closure = some ((ffi.closure_alloc s.world).0.0);
        prepared = true;
        function_address = some ((ffi.closure_alloc s.world).0.1);
        parameter_types = some parameters;
      } in
      let c' : Callback = record c { user_data = some null } in
      let at_n : (s1.heap).block n ≡ some (callback c) = blocks n ∙ ground arith in
      let s2 : State W = write s1 n (some (callback c')) in
      let reg : Registered s2 n (ffi.closure_alloc s.world).0.0 parameters null c' = record {
        ne_null = n_real;
        shape = ground arith;
        has_closure = refl;
        has_types = refl;
        has_data = refl;
        types_ne_null = real;
        x = pointers types;
        at_types = ground (arith, blocks parameters, at, p_n);
        types_cb = p_n;
        data_cb = λ j. n_real (sym j);
        data_types = λ j. real (sym j);
      } in
      let at_null : (s2.heap).block null ≡ none =
        ground (arith, blocks null, heap.at_null, n_real) in
      let (u, frees, w, gone) =
        callback_release_lem s2 n (ffi.closure_alloc s.world).0.0 parameters null c' reg
          (inr (refl, at_null)) in
      (
        u,
        rw
            (
              run,
              good,
              load-ok s1 n (callback c) n_real at_n as_callback c refl,
              store-ok s1 n (callback c) n_real at_n (callback c'),
            )
            frees,
        w ∙ ap (λ z. ffi.closure_free (ffi.closure_alloc s.world).0.0 z) world,
        λ q. gone q ∙ elim (ℕ_discrete q n) [
          | yes e ↦ rw e (ground (arith, fresh))
          | no other ↦ elim (ℕ_discrete q null) [
            | yes e ↦ rw e (ground (arith, heap.at_null))
            | no some_block ↦ ground (arith, blocks q)
          ]
        ],
      )

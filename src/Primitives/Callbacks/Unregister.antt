-- ===== src/Primitives/Callbacks/Unregister.antt =====
-- `primitiveUnregisterCallback` of plugin/src/callbacks/callbackPrimitives.c.
use threaded_ffi_plugin.Prelude.{
  ◌≡◌, refl, ap, true, false, none, ◌||◌, ◌==◌, if◌then◌else◌, eq-false,
}
use threaded_ffi_plugin.Machine.{Ptr, null, Callback, State, ok, stop}
use threaded_ffi_plugin.Host.{Oop, Vm, Ffi}
use threaded_ffi_plugin.Utils.{check_failed, read_address, is_external_address, primitive_end}
use threaded_ffi_plugin.Callbacks.Release.{Registered, IsString, callback_release_lem}
use threaded_ffi_plugin.Primitives.Callbacks.{primitive_unregister_callback}

module _ {W : Type 0} ⦃vm : Vm W⦄ where
  -- the world once a primitive has popped its arguments
  abbrev pub ended : W → W
  ended w = vm.pop (vm.method_argument_count w) w

module _ {W : Type 0} ⦃vm : Vm W⦄ ⦃ffi : Ffi W⦄ (o : Oop) (s : State W)
    (argument : vm.stack_value 0 s.world ≡ (o, s.world)) where
  -- An argument that is no external address fails the primitive, which leaves the plugin's memory as
  -- it was; `NULL` is accepted and releases nothing; the address of a registered callback releases
  -- it: its closure goes to libffi, and the callback, its array of types and its debug string, if it
  -- has one, to the heap. A failure of a primitive must be one that the virtual machine sees.
  pub unregister_callback_lem :
      vm.failed s.world ≡ false
      → vm.failed (vm.primitive_fail s.world) ≡ true
      → (is_external_address o s.world ≡ false
          → primitive_unregister_callback s ≡ stop (record s { world = vm.primitive_fail s.world }))
        × (is_external_address o s.world ≡ true
            → vm.word_at (vm.first_indexable_field o s.world) s.world ≡ null
            → primitive_unregister_callback s ≡ ok tt (record s { world = ended s.world }))
        × ((cb closure types user_data : Ptr) (c : Callback)
            → is_external_address o s.world ≡ true
            → vm.word_at (vm.first_indexable_field o s.world) s.world ≡ cb
            → Registered s cb closure types user_data c
            → IsString s user_data
            → (t : State W) × (primitive_unregister_callback s ≡ ok tt t)
              × (t.world ≡ ended (ffi.closure_free closure s.world))
              × ((q : Ptr)
                  → (t.heap).block q ≡ (
                      if (q == cb) || (q == types) || (q == user_data)
                      then none
                      else (s.heap).block q)))
  unfolding primitive_unregister_callback read_address check_failed primitive_end
  unregister_callback_lem sound fails = (
    λ no_address. rw (argument, no_address, fails) refl,
    λ address nothing. rw (argument, address, nothing, sound) refl,
    λ cb closure types user_data c address holds reg string.
        let (t, run, world, blocks) =
          callback_release_lem s cb closure types user_data c reg string in
        (
          record t { world = ended t.world },
          rw (argument, address, holds, sound, eq-false cb null reg.ne_null, run) refl,
          ap ended world,
          blocks,
        ),
  )

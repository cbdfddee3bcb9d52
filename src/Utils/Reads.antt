-- ===== src/Utils/Reads.antt =====
-- What the helpers of plugin/src/utils.c read from the image and write to it, as functions of the world.
use threaded_ffi_plugin.Prelude.{◌≡◌, refl, Bool-cases, inl, inr, ◌⊎◌, true, if◌then◌else◌}
use threaded_ffi_plugin.Machine.{Ptr, null, State, ok}
use threaded_ffi_plugin.Host.{Oop, Vm}
use threaded_ffi_plugin.Utils.{
  write_address, get_handler, read_address, set_handler, is_external_address, has_slot,
}

module _ {W : Type 0} ⦃vm : Vm W⦄ where
  -- The address in the object becomes `value`, where it is an external address; else the primitive
  -- fails.
  abbrev pub address_written : Oop → Ptr → W → W
  address_written o value w =
      if is_external_address o w
      then vm.set_word_at (vm.first_indexable_field o w) value w
      else vm.primitive_fail w

  abbrev pub address_in : Oop → W → Ptr × W
  address_in o w =
      if is_external_address o w
      then (vm.word_at (vm.first_indexable_field o w) w, w)
      else (null, vm.primitive_fail w)

  -- the address in the first slot of the object
  abbrev pub handler_of : Oop → W → Ptr × W
  handler_of o w =
      if has_slot o w
      then (address_in (vm.fetch_pointer_of_object 0 o w).0 (vm.fetch_pointer_of_object 0 o w).1)
      else (null, vm.primitive_fail w)

  abbrev pub handler_written : Oop → Ptr → W → W
  handler_written o value w =
      if has_slot o w
      then (address_written (vm.fetch_pointer_of_object 0 o w).0 value
          (vm.fetch_pointer_of_object 0 o w).1)
      else vm.primitive_fail w

  -- the world where a primitive has taken its arguments off the stack
  abbrev pub popped : W → W
  popped w = vm.pop (vm.method_argument_count w) w

  -- The primitive has failed, or has just been made to fail.
  abbrev pub HasFailed : W → Type 0
  HasFailed w = (vm.failed w ≡ true) ⊎ ((v : W) × (w ≡ vm.primitive_fail v))

  pub write_address-ok :
      (o : Oop) (value : Ptr) (s : State W)
      → write_address o value s ≡ ok tt (record s { world = address_written o value s.world })
  unfolding write_address
  write_address-ok o value s = elim (Bool-cases (is_external_address o s.world)) [
    | inl e ↦ rw e refl
    | inr e ↦ rw e refl
  ]

  read_address-ok :
      (o : Oop) (s : State W)
      → read_address o s
        ≡ ok (address_in o s.world).0 (record s { world = (address_in o s.world).1 })
  unfolding read_address
  read_address-ok o s = elim (Bool-cases (is_external_address o s.world)) [
    | inl e ↦ rw e refl
    | inr e ↦ rw e refl
  ]

  pub get_handler-ok :
      (o : Oop) (s : State W)
      → get_handler o s
        ≡ ok (handler_of o s.world).0 (record s { world = (handler_of o s.world).1 })
  unfolding get_handler
  get_handler-ok o s = elim (Bool-cases (has_slot o s.world)) [
    | inl e ↦ rw e (
        read_address-ok (vm.fetch_pointer_of_object 0 o s.world).0
          (record s { world = (vm.fetch_pointer_of_object 0 o s.world).1 }))
    | inr e ↦ rw e refl
  ]

  pub set_handler-ok :
      (o : Oop) (value : Ptr) (s : State W)
      → set_handler o value s ≡ ok tt (record s { world = handler_written o value s.world })
  unfolding set_handler
  set_handler-ok o value s = elim (Bool-cases (has_slot o s.world)) [
    | inl e ↦ rw e (
        write_address-ok (vm.fetch_pointer_of_object 0 o s.world).0 value
          (record s { world = (vm.fetch_pointer_of_object 0 o s.world).1 }))
    | inr e ↦ rw e refl
  ]

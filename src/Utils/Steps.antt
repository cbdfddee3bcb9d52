-- ===== src/Utils/Steps.antt =====
-- The helpers of plugin/src/utils.c as steps of a primitive: what holds of all that can follow holds
-- of the step and what follows.
use threaded_ffi_plugin.Prelude.{◌≡◌, true, false, Bool-cases, inl, inr}
use threaded_ffi_plugin.Machine.{Ptr, State, Run, stop, Cmd, and_then}
use threaded_ffi_plugin.Host.{Oop, Vm}
use threaded_ffi_plugin.Utils.{
  check_failed, write_address, read_address, get_handler, set_handler, is_external_address,
  has_slot,
}

module _ {W B : Type 0} ⦃vm : Vm W⦄ (s : State W) (P : Run W B → Type 0) where
  module _ (k : Unit {0} → Cmd W B) where
    pub after-check_failed : P (stop s) → P (k tt s) → P (and_then (check_failed s) k)
    unfolding check_failed
    after-check_failed bad good = elim (Bool-cases (vm.failed s.world)) [
      | inl e ↦ rw e bad
      | inr e ↦ rw e good
    ]

    -- The macro returns where the primitive has failed, and only there.
    pub after-check_failed_known :
        (vm.failed s.world ≡ true → P (stop s))
        → (vm.failed s.world ≡ false → P (k tt s))
        → P (and_then (check_failed s) k)
    unfolding check_failed
    after-check_failed_known bad good = elim (Bool-cases (vm.failed s.world)) [
      | inl e ↦ rw e (bad e)
      | inr e ↦ rw e (good e)
    ]

    -- what follows runs in some world
    pub after-set_handler :
        (o : Oop) (value : Ptr)
        → ((w : W) → P (k tt (record s { world = w })))
        → P (and_then (set_handler o value s) k)
    unfolding set_handler write_address
    after-set_handler o value next = elim (Bool-cases (has_slot o s.world)) [
      | inr e ↦ rw e (next _)
      | inl e ↦
          rw e
            (elim (Bool-cases (
              is_external_address (vm.fetch_pointer_of_object 0 o s.world).0
                (vm.fetch_pointer_of_object 0 o s.world).1)) [
                  | inl f ↦ rw f (next _)
                  | inr f ↦ rw f (next _)
                ])
    ]

  module _ (k : Ptr → Cmd W B) where
    pub after-get_handler :
        (o : Oop)
        → ((p : Ptr) (w : W) → P (k p (record s { world = w })))
        → P (and_then (get_handler o s) k)
    unfolding get_handler read_address
    after-get_handler o next = elim (Bool-cases (has_slot o s.world)) [
      | inr e ↦ rw e (next _ _)
      | inl e ↦
          rw e
            (elim (Bool-cases (
              is_external_address (vm.fetch_pointer_of_object 0 o s.world).0
                (vm.fetch_pointer_of_object 0 o s.world).1)) [
                  | inl f ↦ rw f (next _ _)
                  | inr f ↦ rw f (next _ _)
                ])
    ]

-- ===== src/Utils/Handles.antt =====
-- The handle of an object of the image: an external address in its first slot.
use threaded_ffi_plugin.Prelude.{◌≡◌, true, false}
use threaded_ffi_plugin.Machine.{Ptr}
use threaded_ffi_plugin.Host.{Oop, Vm}
use threaded_ffi_plugin.Utils.{has_slot, is_external_address}

-- In the world `w` the object `o` has the external address `e` for its handle, which holds `p`.
pub record HasHandle {W : Type 0} ⦃vm : Vm W⦄ (w : W) (o e : Oop) (p : Ptr) : Type 0 where
  pub slot : has_slot o w ≡ true
  pub fetched : vm.fetch_pointer_of_object 0 o w ≡ (e, w)
  pub external : is_external_address e w ≡ true
  pub address : vm.word_at (vm.first_indexable_field e w) w ≡ p

module _ {W : Type 0} ⦃vm : Vm W⦄ where
  -- the world once the handle at `e` holds `p`
  abbrev pub handled : Oop → Ptr → W → W
  handled e p w = vm.set_word_at (vm.first_indexable_field e w) p w

  -- The receiver of the primitive is `o`, and the primitive has not failed.
  pub record IsCalledOn (w : W) (o : Oop) : Type 0 where
    pub receiver : vm.stack_value (vm.method_argument_count w) w ≡ (o, w)
    pub sound : vm.failed w ≡ false

-- ===== src/Utils.antt =====
-- plugin/src/utils.c and plugin/includes/macros.h: how the primitives read their arguments, write
-- their results and fail.
pub mod Steps
pub mod Reads
pub mod Handles
use threaded_ffi_plugin.Prelude.{ℕ, ◌+◌, Bool, true, false, ◌&&◌, not, leb, if◌then◌else◌}
use threaded_ffi_plugin.Machine.{Ptr, null, Cmd, ok, stop, pure, ◌>>=◌, ◌>>◌, skip, leave}
use threaded_ffi_plugin.Host.{Oop, Vm, ask, call, tell}

-- `sizeof(void*)`
abbrev pub pointer_size : ℕ
pointer_size = 8

module _ {W : Type 0} ⦃vm : Vm W⦄ where
  abbrev pub primitive_fail : Cmd W (Unit {0})
  primitive_fail = tell vm.primitive_fail

  -- the macros `checkFailed` and `check`
  unfoldable pub check_failed : Cmd W (Unit {0})
  check_failed = do bad ← ask vm.failed; if bad then leave else skip

  unfoldable pub check : Bool → Cmd W (Unit {0})
  check c = if c then skip else (do primitive_fail; leave)

  abbrev pub stack_value : ℕ → Cmd W Oop
  stack_value i = call (vm.stack_value i)

  abbrev pub stack_integer_value : ℕ → Cmd W ℕ
  stack_integer_value i = call (vm.stack_integer_value i)

  abbrev pub stack_object_value : ℕ → Cmd W Oop
  stack_object_value i = call (vm.stack_object_value i)

  abbrev pub is_external_address : Oop → W → Bool
  is_external_address o w = vm.is_kind_of_class o (vm.class_external_address w) w

  unfoldable pub read_address : Oop → Cmd W Ptr
  read_address o = do
    external ← ask (is_external_address o)
    if not external
        then (do primitive_fail; pure null)
        else ask (λ w. vm.word_at (vm.first_indexable_field o w) w)

  unfoldable pub write_address : Oop → Ptr → Cmd W (Unit {0})
  write_address o value = do
    external ← ask (is_external_address o)
    if not external
        then primitive_fail
        else tell (λ w. vm.set_word_at (vm.first_indexable_field o w) value w)

  unfoldable pub get_attribute_of : Oop → ℕ → Cmd W Oop
  get_attribute_of receiver index = call (vm.fetch_pointer_of_object index receiver)

  unfoldable pub get_handler_of : Oop → ℕ → Cmd W Ptr
  unfolding get_attribute_of read_address
  get_handler_of receiver index = do
    attribute ← get_attribute_of receiver index
    read_address attribute

  abbrev pub has_slot : Oop → W → Bool
  has_slot o w = vm.is_pointers o w && leb 1 (vm.slot_size_of o w)

  unfoldable pub get_handler : Oop → Cmd W Ptr
  unfolding read_address
  get_handler o = do
    good ← ask (has_slot o)
    if not good
        then (do primitive_fail; pure null)
        else (do slot ← call (vm.fetch_pointer_of_object 0 o); read_address slot)

  unfoldable pub set_handler : Oop → Ptr → Cmd W (Unit {0})
  unfolding write_address
  set_handler o value = do
    good ← ask (has_slot o)
    if not good
        then primitive_fail
        else (do slot ← call (vm.fetch_pointer_of_object 0 o); write_address slot value)

  unfoldable pub get_address_from_external_address_or_byte_array : Oop → Cmd W Ptr
  unfolding read_address
  get_address_from_external_address_or_byte_array o = do
    external ← ask (is_external_address o)
    bytes ← ask (λ w. vm.is_kind_of_class o (vm.class_byte_array w) w)
    if external
        then read_address o
        else if bytes
        then ask (vm.first_indexable_field o)
        else (do primitive_fail; pure null)

  unfoldable pub read_string : Oop → Cmd W Ptr
  read_string o = do
    good ← ask (λ w. vm.is_kind_of_class o (vm.class_string w) w)
    if not good then (do primitive_fail; pure null) else ask (vm.first_indexable_field o)

  unfoldable pub get_receiver : Cmd W Oop
  get_receiver = do count ← ask vm.method_argument_count; stack_value count

  unfoldable pub primitive_end : Cmd W (Unit {0})
  primitive_end = do count ← ask vm.method_argument_count; tell (vm.pop count)

  unfoldable pub primitive_end_return : Oop → Cmd W (Unit {0})
  primitive_end_return o = do
    count ← ask vm.method_argument_count
    tell (vm.pop (count + 1))
    tell (vm.push o)

  unfoldable pub primitive_end_return_integer : ℕ → Cmd W (Unit {0})
  primitive_end_return_integer n = do
    count ← ask vm.method_argument_count
    tell (vm.pop (count + 1))
    tell (vm.push_integer n)

  unfoldable pub new_external_address : Ptr → Cmd W Oop
  unfolding write_address
  new_external_address address = do
    class ← ask vm.class_external_address
    external ← call (vm.instantiate_class_indexable_size class pointer_size)
    write_address external address
    pure external

  unfoldable pub array_object_at : Oop → ℕ → Cmd W Oop
  array_object_at array index = call (vm.st_object_at array (index + 1))

  unfoldable pub array_object_at_put : Oop → ℕ → Oop → Cmd W (Unit {0})
  array_object_at_put array index object = tell (vm.st_object_at_put array (index + 1) object)

  unfoldable pub array_object_size : Oop → Cmd W ℕ
  array_object_size array = call (vm.st_size_of array)

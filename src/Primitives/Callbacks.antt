-- ===== src/Primitives/Callbacks.antt =====
-- plugin/src/callbacks/callbackPrimitives.c.
pub mod Lifetime
pub mod Unregister
pub mod Register
pub mod Registration
use threaded_ffi_plugin.Prelude.{ℕ, some, ◌==◌, if◌then◌else◌}
use threaded_ffi_plugin.Machine.{
  Ptr, null, callback, bytes, as_callback, as_invocation, as_bytes, Cmd, fault, pure, ◌>>=◌, ◌>>◌,
  skip, leave, defined, malloc, load, store,
}
use threaded_ffi_plugin.Host.{Oop, Vm, Ffi, ask, call, tell}
use threaded_ffi_plugin.Utils.{
  pointer_size, primitive_fail, check_failed, stack_value, stack_integer_value, stack_object_value,
  get_receiver, get_handler, set_handler, get_attribute_of, read_address, write_address,
  read_string, primitive_end, primitive_end_return,
}
use threaded_ffi_plugin.Worker.{to_int}
use threaded_ffi_plugin.Callbacks.{
  queue_next_pending_callback, initilize_callbacks, callback_new, callback_release,
  return_invocation,
}
use threaded_ffi_plugin.Primitives.Memory.{fill_pointers}

module _ {W : Type 0} where
  unfoldable pub set_user_data : Ptr → Ptr → Cmd W (Unit {0})
  set_user_data cb p = do
    this ← load as_callback cb
    store cb (callback (record this { user_data = some p }))

module _ {W : Type 0} ⦃vm : Vm W⦄ where
  unfoldable pub primitive_read_next_callback : Cmd W (Unit {0})
  unfolding queue_next_pending_callback check_failed write_address primitive_end_return
  primitive_read_next_callback = do
    address ← queue_next_pending_callback
    if address == null then (do nil ← ask vm.nil_object; primitive_end_return nil) else (do
      class ← ask vm.class_external_address
      external ← call (vm.instantiate_class_indexable_size class pointer_size)
      check_failed
      write_address external address
      check_failed
      primitive_end_return external)

  unfoldable pub primitive_get_callback_invocation_user_data : Cmd W (Unit {0})
  unfolding get_receiver check_failed get_handler primitive_end_return
  primitive_get_callback_invocation_user_data = do
    receiver ← get_receiver
    check_failed
    i ← get_handler receiver
    check_failed
    this ← load as_invocation i
    cb ← load as_callback this.callback
    user_data ← defined cb.user_data
    text ← load as_bytes user_data
    o ← call (vm.string_for_c_string text)
    if o == 0 then (do tell (vm.primitive_fail_for vm.no_memory); leave) else skip
    primitive_end_return o

  unfoldable pub primitive_initilize_callbacks : Cmd W (Unit {0})
  unfolding check_failed initilize_callbacks primitive_end
  primitive_initilize_callbacks = do
    index ← stack_integer_value 0
    check_failed
    initilize_callbacks (to_int index)
    primitive_end

  -- `callback->userData` is a copy of the bytes of `debug`; `readString` gives `NULL` for an object
  -- that is no string, of which `strlen` has no length.
  unfoldable pub copy_debug_string : Ptr → Oop → Cmd W (Unit {0})
  unfolding read_string set_user_data
  copy_debug_string cb debug = do
    text ← read_string debug
    if text == null then (λ _. fault) else skip
    user_data ← malloc
    set_user_data cb user_data
    again ← read_string debug
    copied ← ask (vm.string_at again)
    store user_data (bytes copied)

  -- plugin/src/callbacks/callbackPrimitives.c, the primitive that ends a callback
  unfoldable pub primitive_callback_return : Cmd W (Unit {0})
  unfolding get_receiver check_failed get_attribute_of get_handler return_invocation
  primitive_callback_return = do
    receiver ← get_receiver
    check_failed
    callback_instance ← get_attribute_of receiver 1
    check_failed
    runner_instance ← get_attribute_of callback_instance 4
    check_failed
    r ← get_handler runner_instance
    check_failed
    if r == null then (do primitive_fail; leave) else skip
    i ← get_handler receiver
    check_failed
    if i == null then (do primitive_fail; leave) else skip
    return_invocation r i

module _ {W : Type 0} ⦃vm : Vm W⦄ ⦃ffi : Ffi W⦄ where
  unfoldable pub primitive_unregister_callback : Cmd W (Unit {0})
  unfolding check_failed read_address callback_release primitive_end
  primitive_unregister_callback = do
    handle ← stack_value 0
    cb ← read_address handle
    check_failed
    if cb == null then skip else callback_release cb
    primitive_end

  -- The end of `primitiveRegisterCallback`: the image gets the address of the function to be called
  -- and that of the callback.
  unfoldable pub publish_callback : (receiver callback_handle : Oop) → Ptr → Cmd W (Unit {0})
  unfolding set_handler check_failed write_address primitive_end
  publish_callback receiver callback_handle cb = do
    this ← load as_callback cb
    function_address ← defined this.function_address
    set_handler receiver function_address
    check_failed
    write_address callback_handle cb
    check_failed
    primitive_end

  -- From the array of types on.
  unfoldable pub make_callback :
      (receiver callback_handle debug objects : Oop) (r : Ptr) → ℕ → Ptr → Cmd W (Unit {0})
  unfolding fill_pointers check_failed callback_new set_user_data copy_debug_string publish_callback
  make_callback receiver callback_handle debug objects r count return_type = do
    parameters ← malloc
    fill_pointers get_handler count 0 objects parameters
    check_failed
    cb ← callback_new r parameters count return_type
    check_failed
    nil ← ask vm.nil_object
    if debug == nil then set_user_data cb null else copy_debug_string cb debug
    publish_callback receiver callback_handle cb

  -- From the receiver and the debug string on.
  unfoldable pub register_receiver : (receiver debug : Oop) → Cmd W (Unit {0})
  unfolding check_failed get_attribute_of get_handler make_callback
  register_receiver receiver debug = do
    callback_handle ← get_attribute_of receiver 1
    check_failed
    objects ← get_attribute_of receiver 2
    check_failed
    type_object ← get_attribute_of receiver 3
    return_type ← get_handler type_object
    check_failed
    runner_instance ← get_attribute_of receiver 4
    check_failed
    r ← get_handler runner_instance
    check_failed
    if r == null then (do primitive_fail; leave) else skip
    count ← call (vm.st_size_of objects)
    check_failed
    make_callback receiver callback_handle debug objects r count return_type

  unfoldable pub primitive_register_callback : Cmd W (Unit {0})
  unfolding get_receiver check_failed register_receiver
  primitive_register_callback = do
    receiver ← get_receiver
    check_failed
    arguments ← ask vm.method_argument_count
    debug ←
        if arguments == 1
        then (do o ← stack_object_value 0; check_failed; pure o)
        else ask vm.nil_object
    register_receiver receiver debug

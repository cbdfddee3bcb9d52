-- ===== src/Primitives/Types.antt =====
-- plugin/src/typesPrimitives.c and types.c: the basic types of libffi and the types of structs.
pub mod Struct
pub mod Free
use threaded_ffi_plugin.Prelude.{ℕ, ◌==◌, Option, none, some, if◌then◌else◌}
use threaded_ffi_plugin.Machine.{
  Ptr, null, as_struct_type, Cmd, fault, pure, ◌>>=◌, ◌>>◌, skip, leave, defined, load, free,
}
use threaded_ffi_plugin.Host.{
  Oop, Vm, Ffi, ask, call, tell, FfiType, type_void, type_float, type_double, type_uint8,
  type_uint16, type_uint32, type_uint64, type_sint8, type_sint16, type_sint32, type_sint64,
  type_pointer, type_uchar, type_schar, type_ushort, type_sshort, type_uint, type_sint, type_ulong,
  type_slong,
}
use threaded_ffi_plugin.Worker.{to_int, of_int}
use threaded_ffi_plugin.Utils.{
  primitive_fail, check_failed, stack_value, get_receiver, get_handler, set_handler,
  primitive_end_return_integer,
}

-- the `switch` of `fillBasicType`
unfoldable pub basic_type : ℕ → Option FfiType
basic_type code =
    if code == 1
    then some type_void
    else if code == 2
    then some type_float
    else if code == 3
    then some type_double
    else if code == 4
    then some type_uint8
    else if code == 5
    then some type_uint16
    else if code == 6
    then some type_uint32
    else if code == 7
    then some type_uint64
    else if code == 8
    then some type_sint8
    else if code == 9
    then some type_sint16
    else if code == 10
    then some type_sint32
    else if code == 11
    then some type_sint64
    else if code == 12
    then some type_pointer
    else if code == 13
    then some type_uchar
    else if code == 14
    then some type_schar
    else if code == 15
    then some type_ushort
    else if code == 16
    then some type_sshort
    else if code == 17
    then some type_uint
    else if code == 18
    then some type_sint
    else if code == 19
    then some type_ulong
    else if code == 20
    then some type_slong
    else none

module _ {W : Type 0} ⦃vm : Vm W⦄ ⦃ffi : Ffi W⦄ where
  -- For an unknown code the variable `address` is never written.
  unfoldable pub fill_basic_type : Oop → Cmd W (Unit {0})
  unfolding set_handler
  fill_basic_type o = do
    code ← call (vm.fetch_integer_of_object 2 o)
    elim (basic_type (to_int code)) [
      | some t ↦ set_handler o (ffi.address_of t)
      | none ↦ do tell (vm.primitive_fail_for 1); address ← defined none; set_handler o address
    ]

  unfoldable pub primitive_fill_basic_type : Cmd W (Unit {0})
  unfolding get_receiver fill_basic_type
  primitive_fill_basic_type = do receiver ← get_receiver; fill_basic_type receiver

  -- The `size` in a type, as an `int`; a type that the plugin did not make is one of libffi's.
  unfoldable pub get_type_byte_size : Ptr → Cmd W ℕ
  get_type_byte_size p s = if p == null then fault else elim ((s.heap).block p) [
    | none ↦ ask (λ w. to_int (ffi.type_size p w)) s
    | some b ↦ (do this ← load as_struct_type p; pure (to_int this.size)) s
  ]

  unfoldable pub primitive_type_byte_size : Cmd W (Unit {0})
  unfolding get_receiver get_handler check_failed get_type_byte_size
  primitive_type_byte_size = do
    receiver ← get_receiver
    handler ← get_handler receiver
    check_failed
    size ← get_type_byte_size handler
    check_failed
    tell (vm.method_return_integer (of_int size))

  unfoldable pub primitive_struct_byte_size : Cmd W (Unit {0})
  unfolding get_handler check_failed get_type_byte_size primitive_end_return_integer
  primitive_struct_byte_size = do
    receiver ← stack_value 0
    check_failed
    struct ← get_handler receiver
    check_failed
    if struct == null then (do primitive_fail; leave) else skip
    size ← get_type_byte_size struct
    primitive_end_return_integer (of_int size)

module _ {W : Type 0} ⦃vm : Vm W⦄ where
  unfoldable pub primitive_free_struct : Cmd W (Unit {0})
  unfolding get_receiver get_handler check_failed set_handler
  primitive_free_struct = do
    receiver ← get_receiver
    check_failed
    struct ← get_handler receiver
    check_failed
    if struct == null then (do primitive_fail; leave) else skip
    this ← load as_struct_type struct
    free this.elements
    free struct
    set_handler receiver null

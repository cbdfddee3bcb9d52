-- ===== src/Host.antt =====
-- What the plugin is given: `struct VirtualMachine* interpreterProxy` (pharovm/sqVirtualMachine.h)
-- and libffi (ffi.h). Neither is in this repository, so both are parameters: records of operations
-- over the type `W` of worlds. A query that the machine answers without a change is a function
-- from the world; any other operation returns the new world.
use threaded_ffi_plugin.Prelude.{ℕ, Bool, List}
use threaded_ffi_plugin.Machine.{Ptr, Cmd, ok}

-- `sqInt`, seen as an object or as a class
abbrev pub Oop : Type 0
Oop = ℕ

pub record Vm (W : Type 0) : Type 0 where
  -- `BaseHeaderSize` and `PrimErrNoMemory`
  pub base_header_size : ℕ
  pub no_memory : ℕ
  pub major_version : W → ℕ
  pub minor_version : W → ℕ
  pub schedule_in_main_thread : W → W
  pub failed : W → Bool
  pub primitive_fail : W → W
  pub primitive_fail_for : ℕ → W → W
  pub method_argument_count : W → ℕ
  pub stack_value : ℕ → W → Oop × W
  pub stack_integer_value : ℕ → W → ℕ × W
  pub stack_object_value : ℕ → W → Oop × W
  pub pop : ℕ → W → W
  pub push : Oop → W → W
  pub push_integer : ℕ → W → W
  pub method_return_integer : ℕ → W → W
  pub class_external_address : W → Oop
  pub class_byte_array : W → Oop
  pub class_string : W → Oop
  pub class_array : W → Oop
  pub nil_object : W → Oop
  pub true_object : W → Oop
  pub false_object : W → Oop
  pub is_kind_of_class : Oop → Oop → W → Bool
  pub is_pointers : Oop → W → Bool
  pub is_pinned : Oop → W → Bool
  pub slot_size_of : Oop → W → ℕ
  pub fetch_pointer_of_object : ℕ → Oop → W → Oop × W
  pub fetch_integer_of_object : ℕ → Oop → W → ℕ × W
  pub st_size_of : Oop → W → ℕ × W
  pub st_object_at : Oop → ℕ → W → Oop × W
  pub st_object_at_put : Oop → ℕ → Oop → W → W
  pub integer_object_of : ℕ → W → Oop
  pub integer_value_of : Oop → W → ℕ
  pub instantiate_class_indexable_size : Oop → ℕ → W → Oop × W
  pub string_for_c_string : List ℕ → W → Oop × W
  pub first_indexable_field : Oop → W → Ptr
  -- `*(void**) p` and `*(void**) p = v` inside an object of the machine
  pub word_at : Ptr → W → Ptr
  pub set_word_at : Ptr → Ptr → W → W
  -- the bytes of the C string at `p` inside an object of the machine
  pub string_at : Ptr → W → List ℕ
  -- `memcpy(to, from, size)` on memory outside the plugin
  pub copy_memory : Ptr → Ptr → ℕ → W → W
  pub signal_semaphore_with_index : ℕ → W → W
  pub enter_interpreter_from_callback : Ptr → W → W
  pub exit_interpreter_to_callback : Ptr → W → W

-- the variables `ffi_type_void` ... `ffi_type_slong` of libffi
pub data FfiType : Type 0 where
  type_void type_float type_double : FfiType
  type_uint8 type_uint16 type_uint32 type_uint64 : FfiType
  type_sint8 type_sint16 type_sint32 type_sint64 : FfiType
  type_pointer : FfiType
  type_uchar type_schar type_ushort type_sshort : FfiType
  type_uint type_sint type_ulong type_slong : FfiType

-- The first answer of `closure_alloc` is the closure, the second its code address. `prep_cif` and
-- `get_struct_offsets` read the array of types that the plugin passes; the latter answers a
-- status, the size, the alignment and the offsets.
pub record Ffi (W : Type 0) : Type 0 where
  pub closure_alloc : W → (Ptr × Ptr) × W
  pub closure_free : Ptr → W → W
  pub prep_cif : ℕ → Ptr → List Ptr → W → ℕ × W
  pub prep_closure_loc : Ptr → Ptr → Ptr → W → ℕ × W
  -- what `malloc` left in the element of an array of offsets
  pub unwritten_offset : ℕ → ℕ
  pub get_struct_offsets : List Ptr → W → (ℕ × ℕ × ℕ × List ℕ) × W
  -- a foreign call that makes no callback
  pub call : (cif function return_holder parameters : Ptr) → W → W
  -- `((ffi_type*) p)->size` for a type that libffi holds
  pub type_size : Ptr → W → ℕ
  pub address_of : FfiType → Ptr

abbrev pub ffi_ok : ℕ
ffi_ok = 0

module _ {W A : Type 0} where
  abbrev pub ask : (W → A) → Cmd W A
  ask f s = ok (f s.world) s

  abbrev pub call : (W → A × W) → Cmd W A
  call f s = ok (f s.world).0 (record s { world = (f s.world).1 })

module _ {W : Type 0} where
  abbrev pub tell : (W → W) → Cmd W (Unit {0})
  tell f s = ok tt (record s { world = f s.world })

-- ===== src/Primitives/Types/Struct.antt =====
-- `primitiveInitializeStructType` of plugin/src/typesPrimitives.c.
pub mod Loops
pub mod Make
use threaded_ffi_plugin.Prelude.{
  ℕ, zero, suc, ◌+◌, not, ltb, leb, List, [], ◌∷◌, ◌==◌, if◌then◌else◌,
}
use threaded_ffi_plugin.Machine.{
  Ptr, null, struct_type, pointers, sizes, as_pointers, Cmd, ◌>>=◌, ◌>>◌, skip, leave, malloc, load,
  store, free,
}
use threaded_ffi_plugin.Host.{Oop, Vm, Ffi, ffi_ok, ask, call, tell}
use threaded_ffi_plugin.Utils.{
  primitive_fail, check_failed, get_receiver, get_handler, set_handler, get_attribute_of,
}

-- the array of members with one more before the `NULL` that ends it
abbrev pub before_last : Ptr → List Ptr → List Ptr
before_last x [] = x ∷ []
before_last x (y ∷ []) = x ∷ y ∷ []
before_last x (y ∷ ys) = y ∷ before_last x ys

-- the member types that `ffi_get_struct_offsets` reads: those before the `NULL`
abbrev pub until_null : List Ptr → List Ptr
until_null [] = []
until_null (x ∷ xs) = if x == null then [] else x ∷ until_null xs

abbrev pub offset_or : ℕ → List ℕ → ℕ
offset_or x [] = x
offset_or x (y ∷ ys) = y

abbrev pub behind : List ℕ → List ℕ
behind [] = []
behind (y ∷ ys) = ys

module _ {W : Type 0} ⦃vm : Vm W⦄ where
  -- the macro `checkIsArray`
  unfoldable pub check_is_array : Oop → Cmd W (Unit {0})
  check_is_array o = do
    good ← ask (λ w. vm.is_kind_of_class o (vm.class_array w) w)
    if not good then (do primitive_fail; leave) else skip

  -- the loop of `checkIsPointerSize`, whose macro reads the member a second time for its size
  unfoldable pub check_members : ℕ → ℕ → Oop → Cmd W (Unit {0})
  check_members zero i members = skip
  check_members (suc count) i members = do
    o ← call (vm.st_object_at members (i + 1))
    good ← ask (vm.is_pointers o)
    if not good then (do primitive_fail; leave) else skip
    again ← call (vm.st_object_at members (i + 1))
    wide ← ask (λ w. leb 1 (vm.slot_size_of again w))
    if not wide then (do primitive_fail; leave) else skip
    check_members count (i + 1) members

  unfoldable pub fill_members : ℕ → ℕ → Oop → Ptr → Cmd W (Unit {0})
  unfolding get_handler
  fill_members zero i members types = skip
  fill_members (suc count) i members types = do
    o ← call (vm.st_object_at members (i + 1))
    x ← get_handler o
    written ← load as_pointers types
    store types (pointers (before_last x written))
    fill_members count (i + 1) members types

module _ {W : Type 0} ⦃vm : Vm W⦄ ⦃ffi : Ffi W⦄ where
  -- The loop over the members: `found` is what is left of what libffi has written, and the rest of the
  -- array holds what `malloc` left there.
  unfoldable pub put_offsets : (count i : ℕ) → (found : List ℕ) → Oop → Cmd W (Unit {0})
  put_offsets zero i found objects = skip
  put_offsets (suc count) i found objects = do
    o ← ask (vm.integer_object_of (offset_or (ffi.unwritten_offset i) found))
    tell (vm.st_object_at_put objects (i + 1) o)
    put_offsets count (i + 1) (behind found) objects

  -- The end of the primitive, once the receiver has the type for its handle.
  unfoldable pub lay_out_members :
      (objects : Oop) → ℕ → (struct types offsets : Ptr) → Cmd W (Unit {0})
  unfolding put_offsets
  lay_out_members objects count struct types offsets = do
    bad ← ask vm.failed
    if bad then (do free types; free struct; free offsets; leave) else skip
    written ← load as_pointers types
    (status, size, alignment, found) ← call (ffi.get_struct_offsets (until_null written))
    store struct (struct_type (record { size = size; alignment = alignment; elements = types }))
    store offsets (sizes found)
    if not (status == ffi_ok)
        then (do free types; free struct; free offsets; primitive_fail; leave)
        else skip
    put_offsets count 0 found objects
    free offsets

  -- The part that allocates, from the number of members on. `offsets` stays unwritten until libffi
  -- answers.
  unfoldable pub make_struct_type : (receiver members objects : Oop) → ℕ → Cmd W (Unit {0})
  unfolding fill_members set_handler lay_out_members
  make_struct_type receiver members objects count = do
    struct ← malloc
    if struct == null then (do primitive_fail; leave) else skip
    types ← malloc
    if types == null then (do free struct; primitive_fail; leave) else skip
    offsets ← malloc
    if offsets == null then (do free types; free struct; primitive_fail; leave) else skip
    store types (pointers (null ∷ []))
    store struct (struct_type (record { size = 0; alignment = 0; elements = types }))
    fill_members count 0 members types
    set_handler receiver struct
    lay_out_members objects count struct types offsets

  unfoldable pub primitive_initialize_struct_type : Cmd W (Unit {0})
  unfolding check_failed get_receiver get_handler get_attribute_of check_is_array check_members
      make_struct_type
  primitive_initialize_struct_type = do
    receiver ← get_receiver
    check_failed
    handler ← get_handler receiver
    check_failed
    members ← get_attribute_of receiver 1
    check_failed
    objects ← get_attribute_of receiver 2
    check_failed
    check_is_array members
    check_is_array objects
    count ← call (vm.st_size_of members)
    if ltb count 1 then (do primitive_fail; leave) else skip
    other ← call (vm.st_size_of objects)
    if not (count == other) then (do primitive_fail; leave) else skip
    check_members count 0 members
    make_struct_type receiver members objects count

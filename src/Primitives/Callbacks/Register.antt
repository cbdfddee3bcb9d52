-- ===== src/Primitives/Callbacks/Register.antt =====
-- `primitiveRegisterCallback`: the memory that it leaves, once it has a callback.
use threaded_ffi_plugin.Prelude.{
  ℕ, ◌+◌, ◌≡◌, ◌≢◌, refl, ◌∙◌, true, false, Bool-cases, inl, inr, ◌⊎◌, Option, none, some, List,
  ◌==◌, if◌then◌else◌, arith,
}
use threaded_ffi_plugin.Machine.{
  Ptr, null, Block, Callback, callback, as_callback, as_pointers, bytes, raw, State, Run, ok, stop,
  fault, write, and_then,
}
use threaded_ffi_plugin.Machine.Access.{allocated, malloc-ok, load-ok, store-ok}
use threaded_ffi_plugin.Host.{Oop, Vm, Ffi}
use threaded_ffi_plugin.Utils.{primitive_end, read_string}
use threaded_ffi_plugin.Utils.Steps.{after-check_failed_known}
use threaded_ffi_plugin.Utils.Reads.{
  handler_of, address_written, handler_written, popped, HasFailed, write_address-ok, set_handler-ok,
}
use threaded_ffi_plugin.Primitives.Memory.Fill.{handlers}
use threaded_ffi_plugin.Callbacks.Creation.{creation_world}
use threaded_ffi_plugin.Queue.Cells.{IsHeap}
use threaded_ffi_plugin.Primitives.Callbacks.{set_user_data, copy_debug_string, publish_callback}

-- What `primitiveRegisterCallback` reads from the image before it allocates, and the world then.
pub record Requested (W : Type 0) : Type 0 where
  pub receiver : Oop
  pub handle : Oop
  pub debug : Oop
  pub objects : Oop
  pub runner : Ptr
  pub count : ℕ
  pub return_type : Ptr
  pub world : W

module _ {W : Type 0} ⦃vm : Vm W⦄ where
  -- the attributes of the receiver
  abbrev pub attributes : (receiver debug : Oop) → W → Requested W
  attributes receiver debug w =
      let (handle, w1) = vm.fetch_pointer_of_object 1 receiver w in
      let (objects, w2) = vm.fetch_pointer_of_object 2 receiver w1 in
      let (type_object, w3) = vm.fetch_pointer_of_object 3 receiver w2 in
      let (return_type, w4) = handler_of type_object w3 in
      let (runner_instance, w5) = vm.fetch_pointer_of_object 4 receiver w4 in
      let (runner, w6) = handler_of runner_instance w5 in
      let (count, w7) = vm.st_size_of objects w6 in
      record {
        receiver = receiver;
        handle = handle;
        debug = debug;
        objects = objects;
        runner = runner;
        count = count;
        return_type = return_type;
        world = w7;
      }

  -- The debug string is the argument, if there is one.
  abbrev pub requested : W → Requested W
  requested w =
      let (receiver, w0) = vm.stack_value (vm.method_argument_count w) w in
      if vm.method_argument_count w0 == 1
      then attributes receiver (vm.stack_object_value 0 w0).0 (vm.stack_object_value 0 w0).1
      else attributes receiver (vm.nil_object w0) w0

  -- The object is no string, or its bytes are nowhere.
  abbrev pub NoString : Oop → W → Type 0
  NoString o w =
      (vm.is_kind_of_class o (vm.class_string w) w ≡ false) ⊎ (vm.first_indexable_field o w ≡ null)

module _ {W : Type 0} ⦃vm : Vm W⦄ ⦃ffi : Ffi W⦄ (s : State W) (x : Requested W) where
  abbrev n : Ptr
  n = (s.heap).next

  -- the types of the parameters, and the world that has answered
  abbrev pub typed : List Ptr × W
  typed = handlers x.count 0 x.objects x.world

  -- the world where libffi has made the callback or has refused
  abbrev pub world_created : W
  world_created =
      creation_world x.runner n typed.0 x.count x.return_type
        (record (allocated s (some raw)) { world = typed.1 })

  -- the address that libffi gives the callback
  abbrev pub code : Ptr
  code = (ffi.closure_alloc typed.1).0.1

  -- the callback, before it has its debug string
  abbrev pub prepared_callback : Callback
  prepared_callback = record {
    runner = some x.runner;
    user_data = none;
    closure = some ((ffi.closure_alloc typed.1).0.0);
    prepared = true;
    function_address = some code;
    parameter_types = some n;
  }

  abbrev pub with_data : Ptr → Callback
  with_data d = record prepared_callback { user_data = some d }

  -- The memory of `s` with the array `b`, the callback `c`, and what `extra` says behind them.
  abbrev pub Holding : State W → Block → Callback → Option Block → Type 0
  Holding t b c extra =
      (q : Ptr)
      → (t.heap).block q ≡ (
          if q == n
          then some b
          else if q == n + 1
          then some (callback c)
          else if q == n + 2
          then extra
          else (s.heap).block q)

  -- The user data is `NULL` without a debug string, or the block behind the callback with its bytes.
  abbrev pub HasText : W → Ptr → Option Block → Type 0
  HasText v d extra =
      (((x.debug == vm.nil_object v) ≡ true) × (d ≡ null) × (extra ≡ none))
      ⊎ (((x.debug == vm.nil_object v) ≡ false)
          × (d ≡ n + 2)
          × (extra ≡ some (bytes (vm.string_at (vm.first_indexable_field x.debug v) v))))

  -- What the primitive can come to from a state with the memory of `s`, where `v` is the world after
  -- the creation of the callback.
  pub data Outcome (v : W) : Run W (Unit {0}) → Type 0 where
    -- a failure, with the memory that there was
    left :
        (t : State W)
        → HasFailed t.world
        → ((q : Ptr) → (t.heap).block q ≡ (s.heap).block q)
        → Outcome v (stop t)
    -- a failure that leaves the array of types behind
    leaked :
        (b : Block) (t : State W)
        → vm.failed t.world ≡ true
        → as_pointers b ≡ some typed.0
        → ((q : Ptr) → (t.heap).block q ≡ (if q == n then some b else (s.heap).block q))
        → Outcome v (stop t)
    -- a failure that leaves the callback behind
    kept :
        (b : Block) (c : Callback) (extra : Option Block) (t : State W)
        → vm.failed t.world ≡ true
        → as_pointers b ≡ some typed.0
        → (c ≡ prepared_callback) ⊎ ((d : Ptr) × (c ≡ with_data d))
        → Holding t b c extra
        → Outcome v (stop t)
    -- undefined behaviour: a debug string that is none
    undefined : (x.debug == vm.nil_object v) ≡ false → NoString x.debug v → Outcome v fault
    -- The callback with its array of types and its debug string; the receiver has the address of its
    -- code, and the handle that of the callback.
    registered :
        (b : Block) (d : Ptr) (extra : Option Block) (t : State W)
        → as_pointers b ≡ some typed.0
        → HasText v d extra
        → Holding t b (with_data d) extra
        → t.world ≡ popped (address_written x.handle (n + 1) (handler_written x.receiver code v))
        → Outcome v (ok tt t)

module _ {W : Type 0} ⦃vm : Vm W⦄ ⦃ffi : Ffi W⦄ (s : State W) (x : Requested W)
    (heap : IsHeap s.heap) (b : Block) (reads : as_pointers b ≡ some (typed s x).0) where
  abbrev new_callback : Ptr
  new_callback = (s.heap).next + 1

  publish-Outcome :
      (d : Ptr) (extra : Option Block) (t : State W)
      → HasText s x t.world d extra
      → Holding s x t b (with_data s x d) extra
      → Outcome s x t.world (publish_callback x.receiver x.handle new_callback t)
  unfolding publish_callback primitive_end
  publish-Outcome d extra t text holds =
      let c = with_data s x d in
      let at : (t.heap).block new_callback ≡ some (callback c) =
        holds new_callback ∙ ground arith in
      let w = handler_written x.receiver (code s x) t.world in
      let v = address_written x.handle new_callback w in
      rw
        (
          load-ok t new_callback (callback c) (omega arith) at as_callback c refl,
          set_handler-ok x.receiver (code s x) t,
        )
        (after-check_failed_known (record t { world = w }) (Outcome s x t.world) _
          (λ bad. kept b c extra _ bad reads (inr (d, refl)) holds)
          (λ _. rw (write_address-ok x.handle new_callback (record t { world = w })) (
            after-check_failed_known (record t { world = v }) (Outcome s x t.world) _
              (λ bad. kept b c extra _ bad reads (inr (d, refl)) holds)
              (λ _. registered b d extra _ reads text holds refl))))

  -- The bytes of the debug string are copied, where it is one.
  copy-Outcome :
      (t : State W)
      → Holding s x t b (prepared_callback s x) none
      → (t.heap).next ≡ (s.heap).next + 2
      → (t.heap).budget ≢ 0
      → (x.debug == vm.nil_object t.world) ≡ false
      → Outcome s x t.world (
          and_then
            (copy_debug_string new_callback x.debug t)
            (λ _. publish_callback x.receiver x.handle new_callback))
  unfolding copy_debug_string set_user_data read_string
  copy-Outcome t holds next room some_debug =
      let m = (t.heap).next in
      let c = prepared_callback s x in
      let d = with_data s x m in
      let at : (t.heap).block new_callback ≡ some (callback c) =
        holds new_callback ∙ ground arith in
      let real : new_callback ≢ null = omega arith in
      elim (Bool-cases (vm.is_kind_of_class x.debug (vm.class_string t.world) t.world)) [
        | inr other ↦ rw other (undefined some_debug (inl other))
        | inl string ↦
            rw string (elim (Bool-cases (vm.first_indexable_field x.debug t.world == null)) [
              | inl nowhere ↦ rw nowhere (undefined some_debug (inr (ground arith)))
              | inr somewhere ↦
                  let t1 : State W = allocated t (some raw) in
                  let t2 : State W = write t1 new_callback (some (callback d)) in
                  let text = vm.string_at (vm.first_indexable_field x.debug t.world) t.world in
                  rw
                    (
                      somewhere,
                      malloc-ok t room,
                      load-ok t1 new_callback (callback c) real (ground arith) as_callback c refl,
                      store-ok t1 new_callback (callback c) real (ground arith) (callback d),
                      string,
                      store-ok t2 m raw (omega arith) (ground arith) (bytes text),
                    )
                    (publish-Outcome m (some (bytes text)) _ (inr (some_debug, next, refl))
                      (λ q. ground (arith, holds q)))
            ])
      ]

  -- The callback gets its debug string, or none.
  pub describe-Outcome :
      (t : State W)
      → Holding s x t b (prepared_callback s x) none
      → (t.heap).next ≡ (s.heap).next + 2
      → (t.heap).budget ≢ 0
      → Outcome s x t.world (
          and_then
            ((if x.debug == vm.nil_object t.world
                then set_user_data new_callback null
                else copy_debug_string new_callback x.debug)
              t)
            (λ _. publish_callback x.receiver x.handle new_callback))
  unfolding set_user_data copy_debug_string read_string
  describe-Outcome t holds next room =
      let c = prepared_callback s x in
      let at : (t.heap).block new_callback ≡ some (callback c) =
        holds new_callback ∙ ground arith in
      let real : new_callback ≢ null = omega arith in
      elim (Bool-cases (x.debug == vm.nil_object t.world)) [
        | inl nil ↦
            rw
              (
                nil,
                load-ok t new_callback (callback c) real at as_callback c refl,
                store-ok t new_callback (callback c) real at (callback (with_data s x null)),
              )
              (publish-Outcome null none _ (inl (nil, refl, refl)) (λ q. ground (arith, holds q)))
        | inr some_debug ↦ rw some_debug (copy-Outcome t holds next room some_debug)
      ]

-- ===== src/Callbacks/Creation.antt =====
-- `callback_new` of plugin/src/callbacks/callbacks.c, with each answer of libffi.
use native.Mathlib.Decide.{ℕ_discrete}
use threaded_ffi_plugin.Prelude.{
  ℕ, ◌+◌, ◌-◌, ◌≡◌, ◌≢◌, refl, Bool, true, false, ◌&&◌, none, some, Option, List, ◌==◌, not,
  if◌then◌else◌, arith, Bool-cases, inl, inr, ap, ◌∙◌,
}
use threaded_ffi_plugin.Machine.{
  Ptr, null, Block, Callback, as_pointers, as_callback, callback, raw, State, ok, write, store,
  free, ◌>>◌, pure,
}
use threaded_ffi_plugin.Machine.Access.{
  allocated, malloc-ok, load-ok, store-ok, free-ok, write-allocated,
}
use threaded_ffi_plugin.Host.{Vm, Ffi, ffi_ok}
use threaded_ffi_plugin.Queue.Cells.{IsHeap}
use threaded_ffi_plugin.Callbacks.{callback_new}

-- The same blocks, but for the one at `p`, which is `b`.
abbrev pub SameBut : {W : Type 0} → State W → State W → Ptr → Option Block → Type 0
SameBut s s' p b = (q : Ptr) → (s'.heap).block q ≡ (if q == p then b else (s.heap).block q)

-- One request for memory was granted.
abbrev pub AllottedOne : {W : Type 0} → State W → State W → Type 0
AllottedOne s s' = ((s'.heap).next ≡ (s.heap).next + 1) × ((s'.heap).budget ≡ (s.heap).budget - 1)

module _ {W : Type 0} ⦃vm : Vm W⦄ ⦃ffi : Ffi W⦄ (r parameters : Ptr) (types : List Ptr)
    (count return_type : ℕ) (s : State W) where
  -- the closure and its code address, and the worlds after each call of libffi
  abbrev closure : Ptr
  closure = (ffi.closure_alloc s.world).0.0

  abbrev code : Ptr
  code = (ffi.closure_alloc s.world).0.1

  abbrev allocated_world : W
  allocated_world = (ffi.closure_alloc s.world).1

  abbrev described : ℕ × W
  described = ffi.prep_cif count return_type types allocated_world

  abbrev bound : ℕ × W
  bound = ffi.prep_closure_loc closure code (s.heap).next described.1

  abbrev pub creates : Bool
  creates = not (closure == null) && (described.0 == ffi_ok) && (bound.0 == ffi_ok)

  abbrev pub creation_world : W
  creation_world =
      if closure == null
      then vm.primitive_fail_for 1 allocated_world
      else if not (described.0 == ffi_ok)
      then ffi.closure_free closure (vm.primitive_fail_for 1 described.1)
      else if not (bound.0 == ffi_ok)
      then ffi.closure_free closure (vm.primitive_fail_for 1 bound.1)
      else bound.1

  abbrev fresh_callback : Bool → Callback
  fresh_callback prepared = record {
    runner = some r;
    user_data = none;
    closure = some closure;
    prepared = prepared;
    function_address = some code;
    parameter_types = some parameters;
  }

  abbrev pub made : Block
  made = callback (fresh_callback true)

  abbrev with_callback : Bool → W → State W
  with_callback prepared w = record (allocated s (some (callback (fresh_callback prepared)))) {
    world = w;
  }

  -- the callback `b` is given back, and then the parameters
  failure :
      IsHeap s.heap
      → parameters ≢ null
      → (array : Block) → (s.heap).block parameters ≡ some array
      → (b : Block) (w : W)
      → (s' : State W) × ((free (s.heap).next >> (free parameters >> pure null))
            (record (allocated s (some b)) { world = w })
          ≡ ok null s')
        × (s'.world ≡ w)
        × SameBut s s' parameters none
        × AllottedOne s s'
  failure heap nn array e b w =
      let n = (s.heap).next in
      let s1 : State W = record (allocated s (some b)) { world = w } in
      let n_null : n ≢ null = omega (arith, heap.next_pos) in
      let fresh = heap.fresh n (omega arith) in
      let n_p : parameters ≢ n = λ j. cc (e, fresh, ap (s.heap).block j) in
      (
        write (write s1 n none) parameters none,
        rw (
          free-ok s1 n b n_null (ground arith),
          free-ok (write s1 n none) parameters array nn (ground arith),
        ),
        refl,
        λ q. elim (ℕ_discrete q n) [
          | yes same ↦ rw same (ground (arith, fresh))
          | no other ↦ ground arith
        ],
        (refl, refl),
      )

  -- With an array of the types, of which nothing is written if there are none: on success there is one
  -- new block, the callback, with a closure whose `cif` is prepared. On each of the three failures
  -- of libffi the primitive fails with code 1, the closure is given back if there is one, and so is
  -- the array; no block is left behind. One request for memory is granted.
  pub callback_new_lem :
      IsHeap s.heap
      → (s.heap).budget ≢ 0
      → parameters ≢ null
      → (array : Block) → (s.heap).block parameters ≡ some array
      → as_pointers array ≡ some types
      → (s' : State W) × (callback_new r parameters count return_type s
          ≡ ok (if creates then (s.heap).next else null) s')
        × (s'.world ≡ creation_world)
        × SameBut s s'
            (if creates then (s.heap).next else parameters)
            (if creates then some made else none)
        × AllottedOne s s'
  unfolding callback_new
  callback_new_lem heap room nn array e reads =
      let n = (s.heap).next in
      let s0 : State W = allocated s (some raw) in
      let n_null : n ≢ null = omega (arith, heap.next_pos) in
      let n_p : parameters ≢ n = λ j. cc (e, heap.fresh n (omega arith), ap (s.heap).block j) in
      let s1 = with_callback false allocated_world in
      let s2 = with_callback false described.1 in
      let s3 = with_callback true bound.1 in
      let prepare : store n made s2 ≡ ok tt (with_callback true described.1) =
        store-ok s2 n (callback (fresh_callback false)) n_null (ground arith) made
        ∙ ap (ok tt) (
            write-allocated (record s { world = described.1 })
              (some (callback (fresh_callback false))) (some made)) in
      let gone = λ (prepared : Bool) (w : W).
        failure heap nn array e (callback (fresh_callback prepared)) w in
      rw
        (
          malloc-ok s room,
          store-ok (record s0 { world = allocated_world }) n raw n_null (ground arith)
              (callback (fresh_callback false)),
          write-allocated (record s { world = allocated_world }) (some raw)
              (some (callback (fresh_callback false))),
        )
        (elim (Bool-cases (closure == null)) [
          | inl none_allocated ↦
              rw none_allocated (gone false (vm.primitive_fail_for 1 allocated_world))
          | inr some_allocated ↦
              rw
                (
                  some_allocated,
                  load-ok s1 parameters array nn (ground arith) as_pointers types reads,
                )
                (elim (Bool-cases (described.0 == ffi_ok)) [
                  | inr refused ↦
                      rw refused (
                        gone false (ffi.closure_free closure (vm.primitive_fail_for 1 described.1)))
                  | inl accepted ↦
                      rw
                        (
                          accepted,
                          load-ok s2 n (callback (fresh_callback false)) n_null (ground arith)
                              as_callback (fresh_callback false) refl,
                          prepare,
                        )
                        (elim (Bool-cases (bound.0 == ffi_ok)) [
                          | inr unbound ↦ rw unbound (
                              gone true
                                (ffi.closure_free closure (vm.primitive_fail_for 1 bound.1)))
                          | inl ready ↦ rw ready (s3, refl, refl, (λ q. refl), (refl, refl))
                        ])
                ])
        ])

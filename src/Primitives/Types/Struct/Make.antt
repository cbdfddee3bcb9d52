-- ===== src/Primitives/Types/Struct/Make.antt =====
-- `primitiveInitializeStructType`, and the memory that it leaves.
use native.Mathlib.Decide.{ℕ_discrete}
use threaded_ffi_plugin.Prelude.{
  ℕ, ◌+◌, ◌≡◌, ◌≢◌, refl, ltb, Bool-cases, eq-false, inl, inr, none, some, List, [], ◌∷◌, length,
  ◌==◌, if◌then◌else◌, arith,
}
use threaded_ffi_plugin.Machine.{
  Ptr, null, Block, struct_type, sizes, pointers, as_pointers, raw, State, Run, ok, stop, write,
}
use threaded_ffi_plugin.Machine.Access.{allocated, load-ok, store-ok, free-ok}
use threaded_ffi_plugin.Host.{Oop, Vm, Ffi, ffi_ok}
use threaded_ffi_plugin.Utils.{get_receiver, get_attribute_of}
use threaded_ffi_plugin.Utils.Steps.{after-check_failed, after-get_handler, after-set_handler}
use threaded_ffi_plugin.Queue.Cells.{IsHeap}
use threaded_ffi_plugin.Primitives.Types.Struct.{
  until_null, lay_out_members, make_struct_type, primitive_initialize_struct_type,
}
use threaded_ffi_plugin.Primitives.Types.Struct.Loops.{
  after-malloc, after-check_is_array, after-check_members, after-fill_members, after-put_offsets,
}

-- What the primitive can come to from a state with the memory of `s`.
pub data Outcome {W : Type 0} (s : State W) : Run W (Unit {0}) → Type 0 where
  -- an early return, with the memory that there was
  left : (t : State W) → ((q : Ptr) → (t.heap).block q ≡ (s.heap).block q) → Outcome s (stop t)
  -- a type and its array of elements, one more than `count`, and no other new block
  made :
      (count size alignment : ℕ) (members : List Ptr) (t : State W)
      → length members ≡ count + 1
      → ((q : Ptr)
          → (t.heap).block q ≡ (
              if q == (s.heap).next
              then some (
                  struct_type
                    (record { size = size; alignment = alignment; elements = (s.heap).next + 1 }))
              else if q == (s.heap).next + 1
              then some (pointers members)
              else (s.heap).block q))
      → Outcome s (ok tt t)

module _ {W : Type 0} ⦃vm : Vm W⦄ ⦃ffi : Ffi W⦄ (s : State W) (heap : IsHeap s.heap) where
  abbrev n : Ptr
  n = (s.heap).next

  n_real : n ≢ null
  n_real = omega (arith, heap.next_pos)

  -- a state with the three blocks, and the memory of `s` elsewhere
  Others : State W → Type 0
  Others t = (q : Ptr) → q ≢ n → q ≢ n + 1 → q ≢ n + 1 + 1 → (t.heap).block q ≡ (s.heap).block q

  cleared :
      (t : State W)
      → Others t
      → (q : Ptr)
      → ((write (write (write t (n + 1) none) n none) (n + 1 + 1) none).heap).block q
        ≡ (s.heap).block q
  unfolding Others
  cleared t others q = elim (ℕ_discrete q n) [
    | yes e ↦ rw e (ground (arith, heap.fresh n (omega arith)))
    | no a ↦ elim (ℕ_discrete q (n + 1)) [
      | yes e ↦ rw e (ground (arith, heap.fresh (n + 1) (omega arith)))
      | no b ↦ elim (ℕ_discrete q (n + 1 + 1)) [
        | yes e ↦ rw e (ground (arith, heap.fresh (n + 1 + 1) (omega arith)))
        | no c ↦ ground (arith, others q a b c)
      ]
    ]
  ]

  cleared_one :
      (w : W) (q : Ptr)
      → ((write (allocated (record s { world = w }) (some raw)) n none).heap).block q
        ≡ (s.heap).block q
  cleared_one w q = elim (ℕ_discrete q n) [
    | yes e ↦ rw e (ground (arith, heap.fresh n (omega arith)))
    | no other ↦ ground arith
  ]

  cleared_two :
      (w : W) (q : Ptr)
      → ((write
          (write
            (allocated (allocated (record s { world = w }) (some raw)) (some raw))
            (n + 1)
            none)
          n
          none).heap
        ).block
          q
        ≡ (s.heap).block q
  cleared_two w q = elim (ℕ_discrete q n) [
    | yes e ↦ rw e (ground (arith, heap.fresh n (omega arith)))
    | no a ↦ elim (ℕ_discrete q (n + 1)) [
      | yes e ↦ rw e (ground (arith, heap.fresh (n + 1) (omega arith)))
      | no b ↦ ground arith
    ]
  ]

  abbrev blank : Ptr → Block
  blank types = struct_type (record { size = 0; alignment = 0; elements = types })

  abbrev s3 : W → State W
  s3 w = allocated (allocated (allocated (record s { world = w }) (some raw)) (some raw)) (some raw)

  abbrev s5 : W → State W
  s5 w = write (write (s3 w) (n + 1) (some (pointers (null ∷ [])))) n (some (blank (n + 1)))

  lay_out-Outcome :
      (objects : Oop) (count : ℕ) (xs : List Ptr) (t : State W)
      → length xs ≡ count + 1
      → (t.heap).block n ≡ some (blank (n + 1))
      → (t.heap).block (n + 1) ≡ some (pointers xs)
      → (t.heap).block (n + 1 + 1) ≡ some raw
      → Others t
      → Outcome s (lay_out_members objects count n (n + 1) (n + 1 + 1) t)
  unfolding lay_out_members Others
  lay_out-Outcome objects count xs t e at_n at_types at_offsets others =
      let (status, size, alignment, found) = (ffi.get_struct_offsets (until_null xs) t.world).0 in
      let t1 : State W = record t { world = (ffi.get_struct_offsets (until_null xs) t.world).1 } in
      let laid = struct_type (record { size = size; alignment = alignment; elements = n + 1 }) in
      let t2 : State W = write t1 n (some laid) in
      let t3 : State W = write t2 (n + 1 + 1) (some (sizes found)) in
      let kept : (q : Ptr)
          → W
          → ((write t3 (n + 1 + 1) none).heap).block q ≡ (
              if q == n
              then some laid
              else if q == n + 1
              then some (pointers xs)
              else (s.heap).block q) =
        λ q w. elim (ℕ_discrete q n) [
          | yes j ↦ rw j (ground arith)
          | no a ↦ elim (ℕ_discrete q (n + 1)) [
            | yes j ↦ rw j (ground (arith, at_types))
            | no b ↦ elim (ℕ_discrete q (n + 1 + 1)) [
              | yes j ↦ rw j (ground (arith, heap.fresh (n + 1 + 1) (omega arith)))
              | no c ↦ ground (arith, others q a b c)
            ]
          ]
        ] in
      elim (Bool-cases (vm.failed t.world)) [
        | inl bad ↦
            rw
              (
                bad,
                free-ok t (n + 1) (pointers xs) (omega arith) at_types,
                free-ok (write t (n + 1) none) n (blank (n + 1)) n_real (ground (arith, at_n)),
                free-ok (write (write t (n + 1) none) n none) (n + 1 + 1) raw (omega arith)
                    (ground (arith, at_offsets)),
              )
              (left _ (cleared t others))
        | inr good ↦
            rw
              (
                good,
                load-ok t (n + 1) (pointers xs) (omega arith) at_types as_pointers xs refl,
                store-ok t1 n (blank (n + 1)) n_real at_n laid,
                store-ok t2 (n + 1 + 1) raw (omega arith) (ground (arith, at_offsets))
                    (sizes found),
              )
              (elim (Bool-cases (status == ffi_ok)) [
                | inr wrong ↦
                    rw
                      (
                        wrong,
                        free-ok t3 (n + 1) (pointers xs) (omega arith) (ground (arith, at_types)),
                        free-ok (write t3 (n + 1) none) n laid n_real (ground arith),
                        free-ok (write (write t3 (n + 1) none) n none) (n + 1 + 1) (sizes found)
                            (omega arith) (ground arith),
                      )
                      (left _ (cleared t3 (λ q a b c. ground (arith, others q a b c))))
                | inl right ↦ rw right (
                    after-put_offsets (Outcome s) _ count 0 found objects t3 (λ w.
                      rw
                        (free-ok (record t3 { world = w }) (n + 1 + 1) (sizes found) (omega arith)
                          (ground arith))
                        (made count size alignment xs _ e (λ q. kept q w))))
              ])
      ]

  make_struct_type-Outcome :
      (receiver members objects : Oop) (count : ℕ) (w : W)
      → Outcome s (make_struct_type receiver members objects count (record s { world = w }))
  unfolding make_struct_type Others
  make_struct_type-Outcome receiver members objects count w =
      let s0 : State W = record s { world = w } in
      let s1 : State W = allocated s0 (some raw) in
      let s2 : State W = allocated s1 (some raw) in
      after-malloc (Outcome s) s0 _ (left _ (λ q. refl)) (
        rw (eq-false n null n_real) (
          after-malloc (Outcome s) s1 _
            (rw (free-ok s1 n raw n_real (ground arith)) (left _ (λ q. cleared_one w q)))
            (rw (eq-false (n + 1) null (omega arith)) (
              after-malloc (Outcome s) s2 _
                (rw
                  (
                    free-ok s2 (n + 1) raw (omega arith) (ground arith),
                    free-ok (write s2 (n + 1) none) n raw n_real (ground arith),
                  )
                  (left _ (λ q. cleared_two w q)))
                (rw
                  (
                    eq-false (n + 1 + 1) null (omega arith),
                    store-ok (s3 w) (n + 1) raw (omega arith) (ground arith) (pointers (null ∷ [])),
                    store-ok (write (s3 w) (n + 1) (some (pointers (null ∷ [])))) n raw n_real
                        (ground arith) (blank (n + 1)),
                  )
                  (after-fill_members (Outcome s) _ count 0 members (n + 1) (null ∷ []) (s5 w)
                    (omega arith) (ground arith)
                    (λ xs v e. after-set_handler _ (Outcome s) _ receiver n (λ u.
                      lay_out-Outcome objects count xs _ (omega (arith, e)) (ground arith)
                        (ground arith) (ground arith) (λ q a b c. ground arith)))))))))

  pub initialize_struct_type-Outcome : Outcome s (primitive_initialize_struct_type s)
  unfolding primitive_initialize_struct_type get_receiver get_attribute_of
  initialize_struct_type-Outcome =
      let (receiver, w0) = vm.stack_value (vm.method_argument_count s.world) s.world in
      after-check_failed _ (Outcome s) _ (left _ (λ q. refl)) (
        after-get_handler _ (Outcome s) _ receiver (λ p w.
          let (members, w1) = vm.fetch_pointer_of_object 1 receiver w in
          let (objects, w2) = vm.fetch_pointer_of_object 2 receiver w1 in
          let (count, w3) = vm.st_size_of members w2 in
          let (other, w4) = vm.st_size_of objects w3 in
          after-check_failed _ (Outcome s) _ (left _ (λ q. refl)) (
            after-check_failed _ (Outcome s) _ (left _ (λ q. refl)) (
              after-check_failed _ (Outcome s) _ (left _ (λ q. refl)) (
                after-check_is_array (Outcome s) _ members _ (λ v. left _ (λ q. refl))
                  (after-check_is_array (Outcome s) _ objects _ (λ v. left _ (λ q. refl))
                    (elim (Bool-cases (ltb count 1)) [
                      | inl few ↦
                          rw few (left (record s { world = vm.primitive_fail w3 }) (λ q. refl))
                      | inr enough ↦ rw enough (elim (Bool-cases (count == other)) [
                        | inr differ ↦
                            rw differ (left (record s { world = vm.primitive_fail w4 }) (λ q. refl))
                        | inl same ↦ rw same (
                            after-check_members (Outcome s) _ count 0 members _
                              (λ v. left _ (λ q. refl))
                              (λ v. make_struct_type-Outcome receiver members objects count v))
                      ])
                    ])))))))

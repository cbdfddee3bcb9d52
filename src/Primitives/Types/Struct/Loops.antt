-- ===== src/Primitives/Types/Struct/Loops.antt =====
-- The loops of `primitiveInitializeStructType`, as steps of it.
use mathlib.Core.Path.{subst}
use native.Mathlib.Decide.{ℕ_discrete}
use threaded_ffi_plugin.Prelude.{
  ℕ, zero, suc, ◌+◌, ◌≡◌, ◌≢◌, refl, sym, leb, Bool-cases, inl, inr, some, List, [], ◌∷◌, length,
  arith,
}
use threaded_ffi_plugin.Machine.{
  Ptr, null, pointers, as_pointers, raw, State, Run, Cmd, stop, write, malloc, and_then,
}
use threaded_ffi_plugin.Machine.Access.{
  allocated, malloc-ok, malloc-null, load-ok, store-ok, write-write, write-same,
}
use threaded_ffi_plugin.Host.{Oop, Vm, Ffi}
use threaded_ffi_plugin.Utils.Steps.{after-get_handler}
use threaded_ffi_plugin.Primitives.Types.Struct.{
  before_last, check_is_array, check_members, fill_members, put_offsets, offset_or, behind,
}

length-before_last : (x : Ptr) (xs : List Ptr) → length (before_last x xs) ≡ length xs + 1
length-before_last x [] = refl
length-before_last x (y ∷ []) = refl
length-before_last x (y ∷ z ∷ xs) = omega (arith, length-before_last x (z ∷ xs))

module _ {W B : Type 0} ⦃vm : Vm W⦄ (P : Run W B → Type 0) where
  pub after-malloc :
      (s : State W) (k : Ptr → Cmd W B)
      → P (k null s)
      → P (k (s.heap).next (allocated s (some raw)))
      → P (and_then (malloc s) k)
  after-malloc s k full granted = elim (ℕ_discrete (s.heap).budget 0) [
    | yes e ↦ rw (malloc-null s e) full
    | no room ↦ rw (malloc-ok s room) granted
  ]

  module _ (k : Unit {0} → Cmd W B) where
    pub after-check_is_array :
        (o : Oop) (s : State W)
        → ((w : W) → P (stop (record s { world = w })))
        → P (k tt s)
        → P (and_then (check_is_array o s) k)
    unfolding check_is_array
    after-check_is_array o s bad good =
        elim (Bool-cases (vm.is_kind_of_class o (vm.class_array s.world) s.world)) [
          | inl e ↦ rw e good
          | inr e ↦ rw e (bad _)
        ]

    pub after-check_members :
        (count i : ℕ) (members : Oop) (s : State W)
        → ((w : W) → P (stop (record s { world = w })))
        → ((w : W) → P (k tt (record s { world = w })))
        → P (and_then (check_members count i members s) k)
    unfolding check_members
    after-check_members zero i members s bad good = good s.world
    after-check_members (suc count) i members s bad good =
        let (o, w) = vm.st_object_at members (i + 1) s.world in
        let (again, v) = vm.st_object_at members (i + 1) w in
        elim (Bool-cases (vm.is_pointers o w)) [
          | inr e ↦ rw e (bad _)
          | inl e ↦ rw e (elim (Bool-cases (leb 1 (vm.slot_size_of again v))) [
            | inr f ↦ rw f (bad _)
            | inl f ↦
                rw f (after-check_members count (i + 1) members (record s { world = v }) bad good)
          ])
        ]

    -- The array gets one element for each member, before its last one.
    pub after-fill_members :
        (count i : ℕ) (members : Oop) (types : Ptr) (written : List Ptr) (s : State W)
        → types ≢ null
        → (s.heap).block types ≡ some (pointers written)
        → ((xs : List Ptr) (w : W)
            → length xs ≡ length written + count
            → P (k tt (record (write s types (some (pointers xs))) { world = w })))
        → P (and_then (fill_members count i members types s) k)
    unfolding fill_members
    after-fill_members zero i members types written s real at next =
        subst (λ t. P (k tt t)) (write-same s types (pointers written) at)
          (next written s.world (omega arith))
    after-fill_members (suc count) i members types written s real at next =
        let (o, w) = vm.st_object_at members (i + 1) s.world in
        after-get_handler (record s { world = w }) (λ run. P (and_then run k)) _ o
          (λ x v.
            let s2 : State W = record s { world = v } in
            let longer = pointers (before_last x written) in
            rw
              (
                load-ok s2 types (pointers written) real at as_pointers written refl,
                store-ok s2 types (pointers written) real at longer,
              )
              (after-fill_members count (i + 1) members types (before_last x written)
                (write s2 types (some longer)) real (ground arith)
                (λ xs u e.
                  subst (λ t. P (k tt (record t { world = u })))
                    (sym (write-write s2 types (some longer) (some (pointers xs))))
                    (next xs u (omega (arith, e, length-before_last x written))))))

module _ {W B : Type 0} ⦃vm : Vm W⦄ ⦃ffi : Ffi W⦄ (P : Run W B → Type 0)
    (k : Unit {0} → Cmd W B) where
  pub after-put_offsets :
      (count i : ℕ) (found : List ℕ) (objects : Oop) (s : State W)
      → ((w : W) → P (k tt (record s { world = w })))
      → P (and_then (put_offsets count i found objects s) k)
  unfolding put_offsets
  after-put_offsets zero i found objects s next = next s.world
  after-put_offsets (suc count) i found objects s next =
      after-put_offsets count (i + 1) (behind found) objects
        (record s {
          world =
              vm.st_object_at_put objects (i + 1)
                (vm.integer_object_of (offset_or (ffi.unwritten_offset i) found) s.world) s.world;
        })
        next

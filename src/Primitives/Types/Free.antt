-- ===== src/Primitives/Types/Free.antt =====
-- `primitiveFreeStruct` of plugin/src/typesPrimitives.c.
use native.Mathlib.Decide.{ℕ_discrete}
use threaded_ffi_plugin.Prelude.{◌+◌, ◌≡◌, ◌≢◌, refl, sym, ap, ◌∙◌, none, some, eq-false, arith}
use threaded_ffi_plugin.Machine.{
  Ptr, null, Block, StructType, struct_type, as_struct_type, pointers, State, Run, ok, write,
}
use threaded_ffi_plugin.Machine.Access.{load-ok, free-ok}
use threaded_ffi_plugin.Machine.Results.{ok-state}
use threaded_ffi_plugin.Host.{Oop, Vm, Ffi}
use threaded_ffi_plugin.Queue.Cells.{IsHeap}
use threaded_ffi_plugin.Queue.Contents.{update_ne}
use threaded_ffi_plugin.Utils.{check_failed, write_address}
use threaded_ffi_plugin.Utils.Handles.{HasHandle, IsCalledOn, handled}
use threaded_ffi_plugin.Primitives.Types.{primitive_free_struct}
use threaded_ffi_plugin.Primitives.Types.Struct.{primitive_initialize_struct_type}
use threaded_ffi_plugin.Primitives.Types.Struct.Make.{
  Outcome, left, made, initialize_struct_type-Outcome,
}

module _ {W : Type 0} ⦃vm : Vm W⦄ where
  pub free_struct-ok :
      (s : State W) (o e : Oop) (p : Ptr) (this : StructType) (x : Block)
      → IsCalledOn s.world o
      → HasHandle s.world o e p
      → p ≢ null
      → (s.heap).block p ≡ some (struct_type this)
      → this.elements ≢ null
      → (s.heap).block this.elements ≡ some x
      → p ≢ this.elements
      → primitive_free_struct s
        ≡ ok tt
            (record (write (write s this.elements none) p none) { world = handled e null s.world })
  unfolding primitive_free_struct check_failed write_address
  free_struct-ok s o e p this x on has real at real' at' apart =
      let s2 : State W = write (write s this.elements none) p none in
      rw (
        on.receiver,
        on.sound,
        has.slot,
        has.fetched,
        has.external,
        has.address,
        on.sound,
        eq-false p null real,
        load-ok s p (struct_type this) real at as_struct_type this refl,
        free-ok s this.elements x real' at',
        free-ok (write s this.elements none) p (struct_type this) real
            (update_ne (s.heap).block this.elements none p apart ∙ at),
        has.slot,
        has.fetched,
        has.external,
      )

module _ {W : Type 0} ⦃vm : Vm W⦄ ⦃ffi : Ffi W⦄ (s t : State W) (heap : IsHeap s.heap) (o e : Oop)
    (on : IsCalledOn t.world o) (has : HasHandle t.world o e (s.heap).next) where
  free-Outcome :
      (run : Run W (Unit {0}))
      → Outcome s run
      → run ≡ ok tt t
      → (u : State W) × (primitive_free_struct t ≡ ok tt u)
        × (u.world ≡ handled e null t.world)
        × ((q : Ptr) → (u.heap).block q ≡ (s.heap).block q)
  free-Outcome run (left t' same) j = absurd (cc j)
  free-Outcome run (made count size alignment members t' len blocks) j =
      let n = (s.heap).next in
      let kept =
        λ (q : Ptr). ap (λ (v : State W). (v.heap).block q) (sym (ok-state j)) ∙ blocks q in
      let this : StructType = record { size = size; alignment = alignment; elements = n + 1 } in
      let u : State W = record (write (write t (n + 1) none) n none) {
        world = handled e null t.world;
      } in
      (
        u,
        free_struct-ok t o e n this (pointers members) on has (omega (arith, heap.next_pos))
            (kept n ∙ ground arith) (omega arith) (kept (n + 1) ∙ ground arith) (omega arith),
        refl,
        λ q. elim (ℕ_discrete q n) [
          | yes i ↦ rw i (ground (arith, heap.fresh n (omega arith)))
          | no a ↦ elim (ℕ_discrete q (n + 1)) [
            | yes i ↦ rw i (ground (arith, heap.fresh (n + 1) (omega arith)))
            | no b ↦ ground (arith, kept q)
          ]
        ],
      )

  -- Where `primitiveInitializeStructType` has made a type and the receiver's handle holds its address,
  -- `primitiveFreeStruct` succeeds, sets the handle to `NULL`, and leaves the plugin's memory as it
  -- was before the type was made.
  pub free_struct-initialize_struct_type :
      primitive_initialize_struct_type s ≡ ok tt t
      → (u : State W) × (primitive_free_struct t ≡ ok tt u)
        × (u.world ≡ handled e null t.world)
        × ((q : Ptr) → (u.heap).block q ≡ (s.heap).block q)
  free_struct-initialize_struct_type j =
      free-Outcome (primitive_initialize_struct_type s) (initialize_struct_type-Outcome s heap) j

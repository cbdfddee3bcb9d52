-- ===== src/Primitives/Memory/Fill.antt =====
-- The loops that fill an array of pointers, as a step of a primitive.
use mathlib.Core.List.{append_assoc, append-nil}
use mathlib.Core.Path.{subst}
use threaded_ffi_plugin.Prelude.{
  ℕ, zero, suc, ◌+◌, ◌≡◌, ◌≢◌, refl, sym, ap, ◌∙◌, some, List, [], ◌∷◌, ◌++◌, arith,
}
use threaded_ffi_plugin.Machine.{
  Ptr, null, Block, pointers, as_pointers, State, Run, Cmd, write, and_then,
}
use threaded_ffi_plugin.Machine.Access.{load-ok, store-ok, write-write, write-same}
use threaded_ffi_plugin.Host.{Oop, Vm}
use threaded_ffi_plugin.Utils.{get_handler}
use threaded_ffi_plugin.Utils.Reads.{handler_of, get_handler-ok}
use threaded_ffi_plugin.Primitives.Memory.{fill_pointers, append_pointer}

-- The handles of the elements of `objects` from `i` on, each read once, in their order.
unfoldable pub handlers : {W : Type 0} ⦃vm : Vm W⦄ → (count i : ℕ) → Oop → W → List Ptr × W
handlers zero i objects w = ([], w)
handlers ⦃vm⦄ (suc count) i objects w =
    let (o, w1) = vm.st_object_at objects (i + 1) w in
    let (p, w2) = handler_of o w1 in
    let rest = handlers count (i + 1) objects w2 in (p ∷ rest.0, rest.1)

module _ {W B : Type 0} ⦃vm : Vm W⦄ (P : Run W B → Type 0) (k : Unit {0} → Cmd W B) where
  -- The array gets the handles behind what was written before.
  pub after-fill_pointers :
      (count i : ℕ) (objects : Oop) (array : Ptr) (written : List Ptr) (b : Block) (s : State W)
      → array ≢ null
      → (s.heap).block array ≡ some b
      → as_pointers b ≡ some written
      → ((b' : Block)
          → as_pointers b' ≡ some (written ++ (handlers count i objects s.world).0)
          → P (
              k tt (record (write s array (some b')) {
                world = (handlers count i objects s.world).1;
              })))
      → P (and_then (fill_pointers get_handler count i objects array s) k)
  unfolding fill_pointers append_pointer handlers
  after-fill_pointers zero i objects array written b s real at reads next =
      subst (λ t. P (k tt t)) (write-same s array b at)
        (next b (reads ∙ ap some (sym (append-nil written))))
  after-fill_pointers (suc count) i objects array written b s real at reads next =
      let (o, w) = vm.st_object_at objects (i + 1) s.world in
      let (x, v) = handler_of o w in
      let s2 : State W = record s { world = v } in
      let longer = pointers (written ++ x ∷ []) in
      rw
        (
          get_handler-ok o (record s { world = w }),
          load-ok s2 array b real at as_pointers written reads,
          store-ok s2 array b real at longer,
        )
        (after-fill_pointers count (i + 1) objects array (written ++ x ∷ []) longer
          (write s2 array (some longer)) real (ground arith) refl
          (λ b' e.
            subst (λ t. P (k tt (record t { world = (handlers count (i + 1) objects v).1 })))
              (sym (write-write s2 array (some longer) (some b')))
              (next b' (e ∙ ap some (append_assoc written (x ∷ []) _)))))

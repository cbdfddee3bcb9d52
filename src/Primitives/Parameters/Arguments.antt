-- ===== src/Primitives/Parameters/Arguments.antt =====
-- The loop over the arguments of a foreign call.
use mathlib.Core.List.{append_assoc, append-nil}
use mathlib.Core.Path.{subst}
use threaded_ffi_plugin.Prelude.{
  ℕ, zero, suc, ◌+◌, ◌≡◌, ◌≢◌, refl, sym, ap, ◌∙◌, not, Bool-cases, inl, inr, Option, none, some,
  List, [], ◌∷◌, ◌++◌, if◌then◌else◌, arith,
}
use threaded_ffi_plugin.Machine.{
  Ptr, null, Block, pointers, as_pointers, State, Run, ok, stop, write,
}
use threaded_ffi_plugin.Machine.Access.{load-ok, store-ok, free-ok, write-write, write-same}
use threaded_ffi_plugin.Host.{Oop, Vm}
use threaded_ffi_plugin.Primitives.Memory.{append_pointer}
use threaded_ffi_plugin.Primitives.Parameters.{prepare_arguments}

-- the addresses behind the headers, of `header` bytes, of objects
abbrev pub behind_headers : ℕ → List Oop → List Ptr
behind_headers header [] = []
behind_headers header (o ∷ os) = (o + header) ∷ behind_headers header os

module _ {W : Type 0} ⦃vm : Vm W⦄ where
  -- The arguments from `idx` on, unless one of them is not pinned, and the world that has answered
  -- the question.
  unfoldable pub pinned_arguments : ℕ → ℕ → Oop → W → Option (List Oop) × W
  pinned_arguments zero idx arguments w = (some [], w)
  pinned_arguments (suc count) idx arguments w =
      let (o, now) = vm.st_object_at arguments (idx + 1) w in
      let rest = pinned_arguments count (idx + 1) arguments now in
      if not (vm.is_pinned o now)
      then (none, now)
      else (elim rest.0 [ none ↦ none | some os ↦ some (o ∷ os) ], rest.1)

  -- What the loop can come to from a state `s` in which the array at `p` has the elements `written`:
  -- the array with all the arguments, or a failure in which the array is given back.
  pub data Gathered (p : Ptr) (written : List Ptr) (s : State W)
      : Option (List Oop) × W → Run W (Unit {0}) → Type 0 where
    all_pinned :
        (os : List Oop) (w : W) (x : Block) (t : State W)
        → as_pointers x ≡ some (written ++ behind_headers vm.base_header_size os)
        → t ≡ record (write s p (some x)) { world = w }
        → Gathered p written s (some os, w) (ok tt t)
    not_pinned :
        (w : W)
        → Gathered p written s
            (none, w)
            (stop (record (write s p none) { world = vm.primitive_fail w }))

module _ {W : Type 0} ⦃vm : Vm W⦄ (p : Ptr) (real : p ≢ null) where
  -- the loop after one argument more
  one_more :
      (written : List Ptr) (s : State W) (now : W) (b : Option Block) (o : Oop)
      (r : Option (List Oop) × W) (run : Run W (Unit {0}))
      → Gathered p
          (written ++ (o + vm.base_header_size) ∷ [])
          (record (write s p b) { world = now })
          r
          run
      → Gathered p written s (elim r.0 [ none ↦ none | some os ↦ some (o ∷ os) ], r.1) run
  one_more written s now b o r run (all_pinned os w x t e at) =
      all_pinned (o ∷ os) w x t
        (e
          ∙ ap some (
              append_assoc written ((o + vm.base_header_size) ∷ [])
                (behind_headers vm.base_header_size os)))
        (at ∙ ap {A = State W} (λ u. record u { world = w }) (write-write s p b (some x)))
  one_more written s now b o r run (not_pinned w) =
      subst (λ u. Gathered p written s (none, w) (stop (record u { world = vm.primitive_fail w })))
        (sym (write-write s p b none)) (not_pinned w)

  -- The loop reads the arguments once each, in order: where all are pinned the array has the
  -- addresses behind their headers, and at the first one that is not the array is given back and
  -- the primitive fails.
  pub prepare_arguments-Gathered :
      (count idx : ℕ) (arguments : Oop) (written : List Ptr) (x : Block) (s : State W)
      → (s.heap).block p ≡ some x
      → as_pointers x ≡ some written
      → Gathered p written s
          (pinned_arguments count idx arguments s.world)
          (prepare_arguments count idx arguments p s)
  unfolding prepare_arguments pinned_arguments append_pointer
  prepare_arguments-Gathered zero idx arguments written x s at e =
      all_pinned [] s.world x s (e ∙ ap some (sym (append-nil written))) (sym (write-same s p x at))
  prepare_arguments-Gathered (suc count) idx arguments written x s at e =
      let o = (vm.st_object_at arguments (idx + 1) s.world).0 in
      let now = (vm.st_object_at arguments (idx + 1) s.world).1 in
      let s1 : State W = record s { world = now } in
      elim (Bool-cases (vm.is_pinned o now)) [
        | inl pinned ↦
            let more = pointers (written ++ (o + vm.base_header_size) ∷ []) in
            rw (pinned, load-ok s1 p x real at as_pointers written e, store-ok s1 p x real at more)
              (one_more written s now (some more) o _ _ (
                prepare_arguments-Gathered count (idx + 1) arguments
                  (written ++ (o + vm.base_header_size) ∷ []) more (write s1 p (some more))
                  (ground arith) refl))
        | inr loose ↦ rw (loose, free-ok s1 p x real at) (not_pinned now)
      ]

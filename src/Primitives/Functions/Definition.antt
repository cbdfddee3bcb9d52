-- ===== src/Primitives/Functions/Definition.antt =====
-- `defineFunctionWithAnd` and `primitiveFreeDefinition` of
-- plugin/src/functionDefinitionPrimitives.c.
use native.Mathlib.Decide.{ℕ_discrete}
use threaded_ffi_plugin.Prelude.{
  ℕ, ◌≡◌, ◌≢◌, refl, sym, ap, ◌∙◌, Bool, true, false, none, some, List, ◌==◌, if◌then◌else◌,
  Bool-cases, inl, inr, eq-false, arith,
}
use threaded_ffi_plugin.Machine.{
  Ptr, null, cif, pointers, raw, as_cif, as_pointers, State, ok, write,
}
use threaded_ffi_plugin.Machine.Access.{
  allocated, malloc-ok, load-ok, store-ok, free-ok, write-allocated,
}
use threaded_ffi_plugin.Machine.Results.{ok-state, ok-value}
use threaded_ffi_plugin.Host.{Oop, Vm, Ffi, ffi_ok}
use threaded_ffi_plugin.Queue.Cells.{IsHeap}
use threaded_ffi_plugin.Queue.Contents.{update_ne}
use threaded_ffi_plugin.Utils.{check_failed, write_address}
use threaded_ffi_plugin.Utils.Handles.{HasHandle, handled}
use threaded_ffi_plugin.Primitives.Functions.{define_function_with_and, primitive_free_definition}

module _ {W : Type 0} ⦃vm : Vm W⦄ ⦃ffi : Ffi W⦄ (parameters : Ptr) (types : List Ptr)
    (count return_type : ℕ) (s : State W) (heap : IsHeap s.heap) (room : (s.heap).budget ≢ 0)
    (real : parameters ≢ null) (at : (s.heap).block parameters ≡ some (pointers types)) where
  abbrev n : Ptr
  n = (s.heap).next

  abbrev answer : ℕ × W
  answer = ffi.prep_cif count return_type types s.world

  abbrev accepted : Bool
  accepted = answer.0 == ffi_ok

  -- Where libffi accepts the types there is one new block, the description with the array of types;
  -- where it refuses them the primitive fails with libffi's code, and the description and the array
  -- are given back.
  pub define_function_with_and_lem :
      (t : State W) × (define_function_with_and parameters count return_type s
        ≡ ok (if accepted then n else null) t)
      × (t.world ≡ (if accepted then answer.1 else vm.primitive_fail_for answer.0 answer.1))
      × ((q : Ptr)
          → (t.heap).block q ≡ (
              if q == (if accepted then n else parameters)
              then (if accepted then some (cif parameters) else none)
              else (s.heap).block q))
  unfolding define_function_with_and
  define_function_with_and_lem =
      let p_n : parameters ≢ n = λ j. cc (at, heap.fresh n (omega arith), ap (s.heap).block j) in
      let s1 : State W = allocated s (some raw) in
      let s2 : State W = record s1 { world = answer.1 } in
      let s3 : State W = record (allocated s (some (cif parameters))) { world = answer.1 } in
      let n_real : n ≢ null = omega (arith, heap.next_pos) in
      rw
        (
          malloc-ok s room,
          load-ok s1 parameters (pointers types) real
              (update_ne (s.heap).block n (some raw) parameters p_n ∙ at) as_pointers types refl,
          store-ok s2 n raw n_real (ground arith) (cif parameters),
          write-allocated (record s { world = answer.1 }) (some raw) (some (cif parameters)),
        )
        (elim (Bool-cases accepted) [
          | inl yes_accepted ↦ rw yes_accepted (s3, refl, refl, λ q. refl)
          | inr refused ↦
              let s4 : State W = record s3 { world = vm.primitive_fail_for answer.0 answer.1 } in
              rw
                (
                  refused,
                  free-ok s4 n (cif parameters) n_real (ground arith),
                  free-ok (write s4 n none) parameters (pointers types) real (ground (arith, at)),
                )
                (
                  write (write s4 n none) parameters none,
                  refl,
                  refl,
                  λ q. elim (ℕ_discrete q n) [
                    | yes e ↦ rw e (ground (arith, heap.fresh n (omega arith)))
                    | no other ↦ ground arith
                  ],
                )
        ])

  -- A definition that was accepted, and whose address the argument's handle holds in the world `w`, is
  -- given back by `primitiveFreeDefinition`: the memory is the one before it was made without the
  -- array of types, and the handle is `NULL`.
  pub free_definition-define :
      (t : State W) (w : W) (o e : Oop)
      → define_function_with_and parameters count return_type s ≡ ok n t
      → vm.stack_value 0 w ≡ (o, w)
      → vm.failed w ≡ false
      → HasHandle w o e n
      → (u : State W) × (primitive_free_definition (record t { world = w }) ≡ ok tt u)
        × (u.world ≡ handled e null w)
        × ((q : Ptr) → (u.heap).block q ≡ (if q == parameters then none else (s.heap).block q))
  unfolding primitive_free_definition check_failed write_address
  free_definition-define t w o e defined argument sound has =
      let (t', run, _, blocks') = define_function_with_and_lem in
      let n_real : n ≢ null = omega (arith, heap.next_pos) in
      let p_n : parameters ≢ n = λ j. cc (at, heap.fresh n (omega arith), ap (s.heap).block j) in
      let same : (if accepted then n else null) ≡ n = ok-value (sym run ∙ defined) in
      let good : accepted ≡ true = elim (Bool-cases accepted) [
        | inl i ↦ i
        | inr i ↦ absurd (n_real (sym (rw i at same)))
      ] in
      let blocks : (q : Ptr)
          → (t.heap).block q ≡ (if q == n then some (cif parameters) else (s.heap).block q) =
        λ q.
          ap (λ (v : State W). (v.heap).block q) (sym (ok-state (sym run ∙ defined)))
          ∙ rw good at (blocks' q) in
      let s1 : State W = record t { world = w } in
      let at_n : (s1.heap).block n ≡ some (cif parameters) = blocks n ∙ ground arith in
      let at_p : (s1.heap).block parameters ≡ some (pointers types) =
        blocks parameters ∙ ground (arith, at) in
      (
        record (write (write s1 parameters none) n none) { world = handled e null w },
        rw (
          argument,
          sound,
          has.slot,
          has.fetched,
          has.external,
          has.address,
          sound,
          eq-false n null n_real,
          load-ok s1 n (cif parameters) n_real at_n as_cif parameters refl,
          free-ok s1 parameters (pointers types) real at_p,
          free-ok (write s1 parameters none) n (cif parameters) n_real
              (update_ne (s1.heap).block parameters none n (λ j. p_n (sym j)) ∙ at_n),
          has.slot,
          has.fetched,
          has.external,
        ),
        refl,
        λ q. elim (ℕ_discrete q n) [
          | yes i ↦ rw i (ground (arith, heap.fresh n (omega arith)))
          | no other ↦ ground (arith, blocks q)
        ],
      )

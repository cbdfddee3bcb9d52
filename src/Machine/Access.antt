-- ===== src/Machine/Access.antt =====
-- Reads, writes and releases of allocated memory.
use mathlib.Core.Path.{fun_ext}
use native.Mathlib.Decide.{ℕ_discrete}
use threaded_ffi_plugin.Prelude.{
  ◌+◌, ◌-◌, ◌≡◌, ◌≢◌, ap, Option, none, some, ◌==◌, if◌then◌else◌, arith,
}
use threaded_ffi_plugin.Machine.{Ptr, null, Block, raw, State, ok, write, malloc, load, store, free}

-- the state after `malloc` has given its next address, which then holds `b`
abbrev pub allocated : {W : Type 0} → State W → Option Block → State W
allocated s b = record s {
  heap = record {
    next = (s.heap).next + 1;
    budget = (s.heap).budget - 1;
    block = λ q. if q == (s.heap).next then b else (s.heap).block q;
  };
}

module _ {W : Type 0} where
  pub write-write :
      (s : State W) (p : Ptr) (b c : Option Block) → write (write s p b) p c ≡ write s p c
  write-write s p b c =
      ap (λ f. record s { heap = record (s.heap) { block = f } }) (fun_ext λ q. ground arith)

  -- The last write at `p` hides the one before, whatever was written in between.
  pub write-write-write :
      (s : State W) (p q : Ptr) (b c d : Option Block)
      → write (write (write s p b) q c) p d ≡ write (write s q c) p d
  write-write-write s p q b c d =
      ap (λ f. record s { heap = record (s.heap) { block = f } }) (fun_ext λ r. ground arith)

  pub write-allocated :
      (s : State W) (b c : Option Block) → write (allocated s b) (s.heap).next c ≡ allocated s c
  write-allocated s b c =
      ap
        (λ f. record s {
          heap = record { next = (s.heap).next + 1; budget = (s.heap).budget - 1; block = f };
        })
        (fun_ext λ q. ground arith)

  -- To write what a block holds changes nothing.
  pub write-same :
      (s : State W) (p : Ptr) (x : Block) → (s.heap).block p ≡ some x → write s p (some x) ≡ s
  write-same s p x e =
      ap (λ f. record s { heap = record (s.heap) { block = f } })
        (fun_ext λ q. elim (ℕ_discrete q p) [
          | yes same ↦ rw same (ground (arith, e))
          | no other ↦ ground arith
        ])

  pub malloc-ok :
      (s : State W) → (s.heap).budget ≢ 0 → malloc s ≡ ok (s.heap).next (allocated s (some raw))
  unfolding malloc
  malloc-ok s room = ground arith

  pub malloc-null : (s : State W) → (s.heap).budget ≡ 0 → malloc s ≡ ok null s
  unfolding malloc
  malloc-null s full = ground arith

module _ {W : Type 0} (s : State W) (p : Ptr) (b : Block) (real : p ≢ null)
    (here : (s.heap).block p ≡ some b) where
  pub load-ok :
      {A : Type 0} (view : Block → Option A) (a : A) → view b ≡ some a → load view p s ≡ ok a s
  unfolding load
  load-ok view a e = ground arith

  pub store-ok : (c : Block) → store p c s ≡ ok tt (write s p (some c))
  unfolding store
  store-ok c = ground arith

  pub free-ok : free p s ≡ ok tt (write s p none)
  unfolding free
  free-ok = ground arith

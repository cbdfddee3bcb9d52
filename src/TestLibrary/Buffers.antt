-- ===== src/TestLibrary/Buffers.antt =====
-- What `fillByteArray` of basic_types.c leaves in memory.
use threaded_ffi_plugin.Prelude.{
  ℕ, zero, suc, ◌+◌, ◌%◌, ◌^◌, ◌≤◌, ◌<◌, ◌≡◌, ◌≢◌, refl, ap, sym, none, some, List, [], ◌∷◌, ◌++◌,
  ◌⊎◌, inl, inr, arith, length,
}
use threaded_ffi_plugin.Machine.{Ptr, null, bytes, as_bytes, State, ok, fault, write}
use threaded_ffi_plugin.Machine.Access.{load-ok, store-ok, write-write, write-same}
use threaded_ffi_plugin.TestLibrary.Memory.{set_nth, fill_bytes, fill_byte_array}

-- the bytes i + 1, i + 2, ... as many as `count`
abbrev pub count_up : (i count : ℕ) → List ℕ
count_up i zero = []
count_up i (suc count) = ((i + 1) % 2 ^ 8) ∷ count_up (i + 1) count

abbrev pub drop : ℕ → List ℕ → List ℕ
drop zero bs = bs
drop (suc n) [] = []
drop (suc n) (b ∷ bs) = drop n bs

pub set_nth-append :
    (i v b : ℕ) (pre post : List ℕ)
    → i ≡ length pre
    → set_nth i v (pre ++ b ∷ post) ≡ some (pre ++ v ∷ post)
set_nth-append zero v b [] post e = refl
set_nth-append zero v b (c ∷ pre) post e = absurd (omega (arith, e))
set_nth-append (suc i) v b [] post e = absurd (omega (arith, e))
set_nth-append (suc i) v b (c ∷ pre) post e =
    rw (set_nth-append i v b pre post (omega (arith, e))) refl

-- An assignment to an element is out of range, or keeps the length.
set_nth-cases :
    (i v : ℕ) (bs : List ℕ)
    → (set_nth i v bs ≡ none)
      ⊎ ((cs : List ℕ) × (set_nth i v bs ≡ some cs) × (length cs ≡ length bs) × (i < length bs))
set_nth-cases i v [] = inl refl
set_nth-cases zero v (b ∷ bs) = inr (v ∷ bs, refl, refl, omega arith)
set_nth-cases (suc i) v (b ∷ bs) = elim (set_nth-cases i v bs) [
  | inl out ↦ inl (rw out refl)
  | inr (cs, e, same, below) ↦ inr (b ∷ cs, rw e refl, omega (arith, same), omega (arith, below))
]

pub append-cons : (v : ℕ) (pre post : List ℕ) → pre ++ v ∷ post ≡ (pre ++ v ∷ []) ++ post
append-cons v [] post = refl
append-cons v (c ∷ pre) post = ap (◌∷◌ c) (append-cons v pre post)

pub length-snoc : (v : ℕ) (pre : List ℕ) → length (pre ++ v ∷ []) ≡ length pre + 1
length-snoc v [] = refl
length-snoc v (c ∷ pre) = omega (arith, length-snoc v pre)

module _ {W : Type 0} (p : Ptr) (real : p ≢ null) where
  fill_bytes-ok :
      (count i : ℕ) (pre post : List ℕ) (s : State W)
      → i ≡ length pre
      → (s.heap).block p ≡ some (bytes (pre ++ post))
      → count ≤ length post
      → fill_bytes count i p s
        ≡ ok tt (write s p (some (bytes (pre ++ (count_up i count ++ drop count post)))))
  unfolding fill_bytes
  fill_bytes-ok zero i pre post s e at le = ap (ok tt) (sym (write-same s p _ at))
  fill_bytes-ok (suc count) i pre [] s e at le = absurd (omega (arith, le))
  fill_bytes-ok (suc count) i pre (b ∷ post) s e at le =
      let v = (i + 1) % 2 ^ 8 in
      let now = bytes (pre ++ v ∷ post) in
      rw
        (
          load-ok s p (bytes (pre ++ b ∷ post)) real at as_bytes (pre ++ b ∷ post) refl,
          set_nth-append i v b pre post e,
          store-ok s p (bytes (pre ++ b ∷ post)) real at now,
          fill_bytes-ok count (i + 1) (pre ++ v ∷ []) post (write s p (some now))
              (omega (arith, e, length-snoc v pre)) (ground (arith, append-cons v pre post))
              (omega (arith, le)),
          write-write s p (some now)
              (some (bytes ((pre ++ v ∷ []) ++ (count_up (i + 1) count ++ drop count post)))),
          sym (append-cons v pre (count_up (i + 1) count ++ drop count post)),
        )
        refl

  fill_bytes-past :
      (count i : ℕ) (bs : List ℕ) (s : State W)
      → (s.heap).block p ≡ some (bytes bs)
      → i ≤ length bs
      → length bs < i + count
      → fill_bytes count i p s ≡ fault
  unfolding fill_bytes
  fill_bytes-past zero i bs s at le lt = absurd (omega (arith, lt, le))
  fill_bytes-past (suc count) i bs s at le lt = elim (set_nth-cases i ((i + 1) % 2 ^ 8) bs) [
    | inl out ↦ rw (load-ok s p (bytes bs) real at as_bytes bs refl, out) refl
    | inr (cs, e, same, below) ↦
        rw
          (
            load-ok s p (bytes bs) real at as_bytes bs refl,
            e,
            store-ok s p (bytes bs) real at (bytes cs),
            fill_bytes-past count (i + 1) cs (write s p (some (bytes cs))) (ground arith)
                (omega (arith, same, below)) (omega (arith, same, lt)),
          )
          refl
  ]

  -- `fillByteArray` writes 1, 2, ... modulo 2 ^ 8 to the first `size` bytes of an array and leaves the
  -- others; where the array is shorter its behaviour is undefined.
  pub fill_byte_array_lem :
      (size : ℕ) (bs : List ℕ) (s : State W)
      → (s.heap).block p ≡ some (bytes bs)
      → size < 2 ^ 31
      → (size ≤ length bs
          → fill_byte_array p size s
            ≡ ok tt (write s p (some (bytes (count_up 0 size ++ drop size bs)))))
        × (length bs < size → fill_byte_array p size s ≡ fault)
  unfolding fill_byte_array
  fill_byte_array_lem size bs s at small = (
    λ le. ground (arith, fill_bytes-ok size 0 [] bs s refl at le),
    λ lt. ground (arith, fill_bytes-past size 0 bs s at (omega arith) (omega (arith, lt))),
  )

-- ===== src/TestLibrary/Strings.antt =====
-- What `dup_string` of basic_types.c leaves in memory.
use mathlib.Core.List.{append-nil}
use mathlib.Core.Path.{subst}
use mathlib.Core.Option
use mathlib.Core.Option.{some-injective}
use threaded_ffi_plugin.Prelude.{
  ℕ, zero, suc, ◌+◌, ◌≤◌, ◌<◌, ◌≡◌, ◌≢◌, refl, ap, sym, none, some, List, [], ◌∷◌, ◌++◌, inl, inr,
  arith, length, Option, leb, Bool-cases, ◌==◌, false,
}
use threaded_ffi_plugin.Machine.{Ptr, null, bytes, as_bytes, raw, State, ok, write}
use threaded_ffi_plugin.Machine.Access.{
  allocated, malloc-ok, load-ok, store-ok, write-write, write-same, write-allocated,
}
use threaded_ffi_plugin.Queue.{int_max}
use threaded_ffi_plugin.Queue.Cells.{IsHeap}
use threaded_ffi_plugin.TestLibrary.Memory.{c_string, malloc_bytes, strcpy, dup_string}
use threaded_ffi_plugin.TestLibrary.Buffers.{drop, set_nth-append, append-cons, length-snoc}

drop-all : (bs : List ℕ) (n : ℕ) → length bs ≤ n → drop n bs ≡ []
drop-all [] zero le = refl
drop-all [] (suc n) le = refl
drop-all (b ∷ bs) zero le = absurd (omega (arith, le))
drop-all (b ∷ bs) (suc n) le = drop-all bs n (omega (arith, le))

map-cons :
    (b : ℕ) (r : Option (List ℕ)) (cs : List ℕ)
    → Option.map (λ ds. b ∷ ds) r ≡ some cs
    → (ds : List ℕ) × (r ≡ some ds) × (b ∷ ds ≡ cs)
map-cons b none cs e = absurd cc
map-cons b (some ds) cs e = (ds, refl, some-injective (b ∷ ds) cs e)

-- The string that was found, with a terminator, is found again.
c_string-again : (bs cs : List ℕ) → c_string bs ≡ some cs → c_string (cs ++ 0 ∷ []) ≡ some cs
c_string-again [] cs e = absurd cc
c_string-again (b ∷ bs) cs e = elim (Bool-cases (b == 0)) [
  | inl ends ↦
      let nothing : [] ≡ cs = some-injective [] cs (ground (arith, ends, e)) in
      subst (λ z. c_string (z ++ 0 ∷ []) ≡ some z) nothing refl
  | inr goes_on ↦
      let more : Option.map (λ ds. b ∷ ds) (c_string bs) ≡ some cs = ground (arith, goes_on, e) in
      let (ds, found, same) = map-cons b (c_string bs) cs more in
      subst (λ z. c_string (z ++ 0 ∷ []) ≡ some z) same
        (rw (goes_on, c_string-again bs ds found) refl)
]

module _ {W : Type 0} (p : Ptr) (real : p ≢ null) where
  strcpy-ok :
      (cs : List ℕ) (i : ℕ) (pre post : List ℕ) (s : State W)
      → i ≡ length pre
      → (s.heap).block p ≡ some (bytes (pre ++ post))
      → length cs ≤ length post
      → strcpy cs i p s ≡ ok tt (write s p (some (bytes (pre ++ (cs ++ drop (length cs) post)))))
  unfolding strcpy
  strcpy-ok [] i pre post s e at le = ap (ok tt) (sym (write-same s p _ at))
  strcpy-ok (c ∷ cs) i pre [] s e at le = absurd (omega (arith, le))
  strcpy-ok (c ∷ cs) i pre (b ∷ post) s e at le =
      let now = bytes (pre ++ c ∷ post) in
      rw
        (
          load-ok s p (bytes (pre ++ b ∷ post)) real at as_bytes (pre ++ b ∷ post) refl,
          set_nth-append i c b pre post e,
          store-ok s p (bytes (pre ++ b ∷ post)) real at now,
          strcpy-ok cs (i + 1) (pre ++ c ∷ []) post (write s p (some now))
              (omega (arith, e, length-snoc c pre)) (ground (arith, append-cons c pre post))
              (omega (arith, le)),
          write-write s p (some now)
              (some (bytes ((pre ++ c ∷ []) ++ (cs ++ drop (length cs) post)))),
          sym (append-cons c pre (cs ++ drop (length cs) post)),
        )
        refl

module _ {W : Type 0} (p : Ptr) (real : p ≢ null) where
  -- `dup_string` allocates one block, which holds the string up to its terminator and a terminator,
  -- and reads as the same string; the string itself stays as it is. What `malloc` grants has the size
  -- that was asked for, whatever it holds; and `malloc` grants one request.
  pub dup_string_lem :
      (contents : ℕ → List ℕ)
      → ((n : ℕ) → length (contents n) ≡ n)
      → (bs cs : List ℕ) (s : State W) → IsHeap s.heap
      → (s.heap).budget ≢ 0
      → (s.heap).block p ≡ some (bytes bs)
      → c_string bs ≡ some cs
      → length cs < int_max
      → (dup_string contents p s ≡ ok (s.heap).next (allocated s (some (bytes (cs ++ 0 ∷ [])))))
        × (c_string (cs ++ 0 ∷ []) ≡ some cs)
        × ((allocated s (some (bytes (cs ++ 0 ∷ [])))).heap.block p ≡ some (bytes bs))
  unfolding dup_string malloc_bytes
  dup_string_lem contents sizes bs cs s heap room at string short =
      let n = (s.heap).next in
      let real_n : n ≢ null = omega (arith, heap.next_pos) in
      let size = length cs + 1 in
      let found = bytes (contents size) in
      let text = cs ++ 0 ∷ [] in
      let s1 : State W = allocated s (some raw) in
      let s2 : State W = write s1 n (some found) in
      let long : (leb int_max (length cs)) ≡ false = ground (arith, short) in
      let there : (n == null) ≡ false = ground (arith, real_n) in
      let nothing_left : drop (length text) (contents size) ≡ [] =
        drop-all (contents size) (length text) (omega (arith, sizes size, length-snoc 0 cs)) in
      let p_n : p ≢ n = λ j. cc (at, heap.fresh n (omega arith), ap (s.heap).block j) in
      (
        rw
            (
              load-ok s p (bytes bs) real at as_bytes bs refl,
              string,
              long,
              malloc-ok s room,
              there,
              store-ok s1 n raw real_n (ground arith) found,
              strcpy-ok n real_n text 0 [] (contents size) s2 refl (ground arith)
                  (omega (arith, sizes size, length-snoc 0 cs)),
              nothing_left,
              append-nil text,
              write-write s1 n (some found) (some (bytes text)),
              write-allocated s (some raw) (some (bytes text)),
            )
            refl,
        c_string-again bs cs string,
        ground (arith, at, p_n),
      )

-- ===== src/TestLibrary/Memory.antt =====
-- The functions of testLibrary/src/basic_types.c that use memory.
use mathlib.Core.Option
use threaded_ffi_plugin.Prelude.{
  ℕ, zero, suc, ◌+◌, ◌%◌, ◌^◌, Option, none, some, List, [], ◌∷◌, ◌++◌, ◌==◌, if◌then◌else◌, ltb,
  leb, length,
}
use threaded_ffi_plugin.Machine.{
  Ptr, null, bytes, as_bytes, as_pointers, Cmd, fault, pure, defined, ◌>>=◌, ◌>>◌, skip, malloc,
  load, store,
}
use threaded_ffi_plugin.Queue.{int_max}

-- The bytes of a C string up to its terminator, or `none` where there is no terminator.
abbrev pub c_string : List ℕ → Option (List ℕ)
c_string [] = none
c_string (b ∷ bs) = if b == 0 then some [] else Option.map (λ cs. b ∷ cs) (c_string bs)

-- `array[i] = v`, or `none` past the end
abbrev pub set_nth : ℕ → ℕ → List ℕ → Option (List ℕ)
set_nth i v [] = none
set_nth zero v (b ∷ bs) = some (v ∷ bs)
set_nth (suc i) v (b ∷ bs) = Option.map (λ cs. b ∷ cs) (set_nth i v bs)

abbrev pub first : List Ptr → Option Ptr
first [] = none
first (p ∷ ps) = some p

module _ {W : Type 0} where
  unfoldable pub unref_pointer : Ptr → Cmd W Ptr
  unref_pointer pointer = do ps ← load as_pointers pointer; defined (first ps)

  -- `malloc(n)` for `n` characters; `contents n` is what these happen to hold.
  unfoldable pub malloc_bytes : (contents : ℕ → List ℕ) → ℕ → Cmd W Ptr
  malloc_bytes contents n = do
    p ← malloc
    if p == null then skip else store p (bytes (contents n))
    pure p

  -- What `strcpy` does from the character at `i` on: it is undefined past the end of `dst`.
  unfoldable pub strcpy : (cs : List ℕ) → (i : ℕ) → Ptr → Cmd W (Unit {0})
  strcpy [] i dst = skip
  strcpy (c ∷ cs) i dst = do
    bs ← load as_bytes dst
    now ← defined (set_nth i c bs)
    store dst (bytes now)
    strcpy cs (i + 1) dst

  -- A string whose length is not below `INT_MAX` has no `len + 1`; `strcpy` into `NULL` is undefined.
  unfoldable pub dup_string : (contents : ℕ → List ℕ) → Ptr → Cmd W Ptr
  unfolding malloc_bytes strcpy
  dup_string contents a_string = do
    bs ← load as_bytes a_string
    cs ← defined (c_string bs)
    let len = length cs
    if leb int_max len then (λ _. fault) else skip
    dst ← malloc_bytes contents (len + 1)
    strcpy (cs ++ 0 ∷ []) 0 dst
    pure dst

  -- what is left of the loop of `fillByteArray` from `i` on
  unfoldable pub fill_bytes : (count i : ℕ) → Ptr → Cmd W (Unit {0})
  fill_bytes zero i p = skip
  fill_bytes (suc count) i p = do
    bs ← load as_bytes p
    cs ← defined (set_nth i ((i + 1) % 2 ^ 8) bs)
    store p (bytes cs)
    fill_bytes count (i + 1) p

  -- A `size` from 2 ^ 31 on is a negative `int`.
  unfoldable pub fill_byte_array : Ptr → (size : ℕ) → Cmd W (Unit {0})
  unfolding fill_bytes
  fill_byte_array a_byte_array size =
      if ltb size (2 ^ 31) then fill_bytes size 0 a_byte_array else skip

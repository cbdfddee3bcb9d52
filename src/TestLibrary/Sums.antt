-- ===== src/TestLibrary/Sums.antt =====
-- The sums of basic_types.c as sums of integers.
use threaded_ffi_plugin.Prelude.{
  ℕ, ◌+◌, ◌-◌, ◌*◌, ◌^◌, ◌≤◌, ◌<◌, ◌≡◌, true, ◌&&◌, Option, none, some, if◌then◌else◌, ltb, leb,
  arith,
}
use threaded_ffi_plugin.TestLibrary.Types.{
  CType, sintenum, int, int32_t, int64_t, long, longlong, sizeof_type, width, is_signed, sum_type,
}

-- The integer that a bit pattern of `w` bits stands for, raised by 2 ^ (w - 1); and back.
abbrev pub shifted : (w a : ℕ) → ℕ
shifted w a = if ltb a (2 ^ (w - 1)) then a + 2 ^ (w - 1) else a - 2 ^ (w - 1)

abbrev pub exact_sum : (w a b : ℕ) → Option ℕ
exact_sum w a b =
    let z = shifted w a + shifted w b in
    if leb (2 ^ (w - 1)) z && ltb z (3 * 2 ^ (w - 1))
    then some (shifted w (z - 2 ^ (w - 1)))
    else none

-- For the signed types no narrower than an `int`, the sum is the sum of the integers where that is
-- an integer of the type, and else undefined.
pub sum_type-signed :
    (t : CType) (a b : ℕ)
    → is_signed t ≡ true
    → 32 ≤ width t
    → a < 2 ^ width t
    → b < 2 ^ width t
    → sum_type t a b ≡ exact_sum (width t) a b
unfolding sum_type width sizeof_type is_signed
sum_type-signed sintenum a b s w la lb = ground arith
sum_type-signed int a b s w la lb = ground arith
sum_type-signed int32_t a b s w la lb = ground arith
sum_type-signed int64_t a b s w la lb = ground arith
sum_type-signed long a b s w la lb = ground arith
sum_type-signed longlong a b s w la lb = ground arith
sum_type-signed t a b s w la lb = absurd (ground arith)

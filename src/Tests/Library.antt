-- ===== src/Tests/Library.antt =====
-- The functions of testLibrary, at concrete inputs.
use threaded_ffi_plugin.Prelude.{
  Bool, true, false, ℕ, ◌+◌, ◌-◌, ◌^◌, ◌≤◌, ◌<◌, ◌≡◌, ◌≢◌, refl, some, none, List, [], ◌∷◌, ◌==◌,
  if◌then◌else◌, length, arith, zero, suc,
}
use threaded_ffi_plugin.Machine.{State, bytes, ok, fault, write, ◌>>◌}
use threaded_ffi_plugin.Machine.Access.{allocated}
use threaded_ffi_plugin.Machine.Results.{ok-state}
use threaded_ffi_plugin.Queue.Cells.{IsHeap}
use threaded_ffi_plugin.TestLibrary.Types.{int, char, is_signed, width, sum_type}
use threaded_ffi_plugin.TestLibrary.Sums.{exact_sum, sum_type-signed}
use threaded_ffi_plugin.TestLibrary.Memory.{c_string, dup_string, fill_byte_array}
use threaded_ffi_plugin.TestLibrary.Buffers.{fill_byte_array_lem}
use threaded_ffi_plugin.TestLibrary.Strings.{dup_string_lem}
use threaded_ffi_plugin.TestLibrary.Callbacks.{
  Library, SimpleCallback, register_callback, callback_in_a_loop, registered_callback_in_a_loop,
  callback_from_another_thread, other_thread, get_value, multiple_argument_callout,
}
use threaded_ffi_plugin.TestLibrary.Loops.{
  registered_callback_in_a_loop-callback_in_a_loop, callback_from_another_thread_lem,
}
use threaded_ffi_plugin.Tests.SmallVm.{World, world, state_with}

-- -3 + 5
sum_type-signed_example : sum_type int (2 ^ 32 - 3) 5 ≡ exact_sum 32 (2 ^ 32 - 3) 5
unfolding is_signed width
sum_type-signed_example =
    sum_type-signed int (2 ^ 32 - 3) 5 refl (omega arith) (omega arith) (omega arith)

small_sum : exact_sum 32 (2 ^ 32 - 3) 5 ≡ some 2
small_sum = refl

overflowing_sum : sum_type int (2 ^ 31 - 1) 1 ≡ none
unfolding sum_type
overflowing_sum = refl

-- a `char` is cut down: 127 + 1 is -128
wrapped_sum : sum_type char 127 1 ≡ some 128
unfolding sum_type
wrapped_sum = refl

all_arguments : multiple_argument_callout 1 2 3 4 5 6 7 8 9 10 ≡ some 55
unfolding multiple_argument_callout sum_type
all_arguments = refl

-- "hi" with something behind it at 5
abbrev buffer : State World
buffer = state_with 6 (λ p. if p == 5 then some (bytes (104 ∷ 105 ∷ 0 ∷ 9 ∷ [])) else none) world

abbrev four : List ℕ
four = 104 ∷ 105 ∷ 0 ∷ 9 ∷ []

buffer-IsHeap : IsHeap buffer.heap
buffer-IsHeap = record { next_pos = omega arith; fresh = λ p le. ground arith; at_null = refl }

fill_byte_array_lem_example :
    (2 ≤ length four
      → fill_byte_array 5 2 buffer ≡ ok tt (write buffer 5 (some (bytes (1 ∷ 2 ∷ 0 ∷ 9 ∷ [])))))
    × (length four < 2 → fill_byte_array 5 2 buffer ≡ fault)
fill_byte_array_lem_example =
    fill_byte_array_lem 5 (omega arith) 2 (104 ∷ 105 ∷ 0 ∷ 9 ∷ []) buffer refl (omega arith)

-- What `malloc` grants holds 7 everywhere.
abbrev sevens : ℕ → List ℕ
sevens zero = []
sevens (suc n) = 7 ∷ sevens n

length-sevens : (n : ℕ) → length (sevens n) ≡ n
length-sevens zero = refl
length-sevens (suc n) = omega (arith, length-sevens n)

dup_string_lem_example :
    (dup_string sevens 5 buffer ≡ ok 6 (allocated buffer (some (bytes (104 ∷ 105 ∷ 0 ∷ [])))))
    × (c_string (104 ∷ 105 ∷ 0 ∷ []) ≡ some (104 ∷ 105 ∷ []))
    × ((allocated buffer (some (bytes (104 ∷ 105 ∷ 0 ∷ [])))).heap.block 5
        ≡ some (bytes (104 ∷ 105 ∷ 0 ∷ 9 ∷ [])))
dup_string_lem_example =
    dup_string_lem 5 (omega arith) sevens length-sevens (104 ∷ 105 ∷ 0 ∷ 9 ∷ []) (104 ∷ 105 ∷ [])
      buffer buffer-IsHeap (omega arith) refl refl (omega arith)

-- A function at any address adds 2 and registers nothing.
abbrev adds_two : SimpleCallback World
adds_two p x s = ok (x + 2) s

abbrev library : State (Library World)
library = record {
  heap = buffer.heap;
  world = record { rest = world; registered_callback = 0; value = 5 };
  thread = 7;
  interrupts = 0;
  errno = 0;
  thread_budget = 1;
  started = [];
  mutex_budget = 3;
  callback_queue = 0;
  main_thread_worker = 0;
}

registered_callback_in_a_loop-callback_in_a_loop_example :
    (register_callback 33 >> registered_callback_in_a_loop adds_two) library
    ≡ (register_callback 33 >> callback_in_a_loop adds_two 33) library
registered_callback_in_a_loop-callback_in_a_loop_example =
    registered_callback_in_a_loop-callback_in_a_loop adds_two 33 (λ x y s t e. rw (ok-state e) refl)
      library

callback_from_another_thread_lem_example :
    ((at_once : Bool)
      → library.thread_budget ≡ 0
      → callback_from_another_thread adds_two at_once 33 library ≡ fault)
    × (library.thread_budget ≢ 0
        → (t : State (Library World)) × (callback_from_another_thread adds_two false 33 library
            ≡ ok tt t)
          × (t.started ≡ 33 ∷ [])
          × (get_value t ≡ ok 0 t)
          × ((x : ℕ) (u : State (Library World))
              → adds_two 33 42 t ≡ ok x u
              → (v : State (Library World)) × (other_thread adds_two 33 t ≡ ok tt v)
                × (callback_from_another_thread adds_two true 33 library ≡ ok tt v)
                × (get_value v ≡ ok x v)
                × (v.heap ≡ u.heap)
                × (v.world.rest ≡ u.world.rest)))
callback_from_another_thread_lem_example = callback_from_another_thread_lem adds_two 33 library

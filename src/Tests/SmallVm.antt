-- ===== src/Tests/SmallVm.antt =====
-- A small virtual machine and a small libffi, for the tests.
use threaded_ffi_plugin.Prelude.{
  ℕ, zero, suc, ◌+◌, ◌*◌, Bool, true, false, List, [], ◌∷◌, ◌==◌, if◌then◌else◌, leb, length,
  Option,
}
use threaded_ffi_plugin.Machine.{Ptr, Block, State, null}
use threaded_ffi_plugin.Host.{Vm, Ffi}

-- `word` is the object memory: object `o` has its class at `o`, its size at `o + 1`, and its slots
-- from `o + 2` on. `signals` are the external semaphores signalled, the last one first, and `calls`
-- the foreign functions called.
pub record World : Type 0 where
  pub has_failed : Bool
  pub stack : List ℕ
  pub arguments : ℕ
  pub word : ℕ → ℕ
  pub signals : List ℕ
  pub calls : List ℕ

abbrev pub nth : List ℕ → ℕ → ℕ
nth [] i = 0
nth (x ∷ xs) zero = x
nth (x ∷ xs) (suc i) = nth xs i

abbrev pub drop : ℕ → List ℕ → List ℕ
drop zero xs = xs
drop (suc n) [] = []
drop (suc n) (x ∷ xs) = drop n xs

-- the classes, and the objects nil, true and false
abbrev pub external_address : ℕ
external_address = 11

abbrev pub byte_array : ℕ
byte_array = 12

abbrev pub string_class : ℕ
string_class = 13

abbrev pub array_class : ℕ
array_class = 14

instance abbrev pub vm : Vm World
vm = record {
  base_header_size = 8;
  no_memory = 9;
  major_version = λ w. 1;
  minor_version = λ w. 14;
  schedule_in_main_thread = λ w. w;
  failed = λ w. w.has_failed;
  primitive_fail = λ w. record w { has_failed = true };
  primitive_fail_for = λ n w. record w { has_failed = true };
  method_argument_count = λ w. w.arguments;
  stack_value = λ i w. (nth w.stack i, w);
  stack_integer_value = λ i w. (nth w.stack i, w);
  stack_object_value = λ i w. (nth w.stack i, w);
  pop = λ n w. record w { stack = drop n w.stack };
  push = λ o w. record w { stack = o ∷ w.stack };
  push_integer = λ n w. record w { stack = n ∷ w.stack };
  method_return_integer = λ n w. record w { stack = n ∷ drop (w.arguments + 1) w.stack };
  class_external_address = λ w. external_address;
  class_byte_array = λ w. byte_array;
  class_string = λ w. string_class;
  class_array = λ w. array_class;
  nil_object = λ w. 1;
  true_object = λ w. 2;
  false_object = λ w. 3;
  is_kind_of_class = λ o c w. w.word o == c;
  is_pointers = λ o w. w.word o == array_class;
  is_pinned = λ o w. leb 100 o;
  slot_size_of = λ o w. w.word (o + 1);
  fetch_pointer_of_object = λ i o w. (w.word (o + 2 + i), w);
  fetch_integer_of_object = λ i o w. (w.word (o + 2 + i), w);
  st_size_of = λ o w. (w.word (o + 1), w);
  st_object_at = λ o i w. (w.word (o + 1 + i), w);
  st_object_at_put = λ o i v w. record w { word = λ p. if p == o + 1 + i then v else w.word p };
  integer_object_of = λ n w. n;
  integer_value_of = λ o w. o;
  instantiate_class_indexable_size =
      λ c n w. (900, record w { word = λ p. if p == 900 then c else w.word p });
  string_for_c_string = λ bytes w. (950, w);
  first_indexable_field = λ o w. o + 2;
  word_at = λ p w. w.word p;
  set_word_at = λ p v w. record w { word = λ q. if q == p then v else w.word q };
  string_at = λ p w. w.word p ∷ [];
  copy_memory = λ to from n w. record w { word = λ p. if p == to then w.word from else w.word p };
  signal_semaphore_with_index = λ i w. record w { signals = i ∷ w.signals };
  enter_interpreter_from_callback = λ p w. w;
  exit_interpreter_to_callback = λ p w. w;
}

instance abbrev pub ffi : Ffi World
ffi = record {
  closure_alloc = λ w. ((700, 701), w);
  closure_free = λ p w. w;
  prep_cif = λ n r ts w. (if r == 0 then 1 else 0, w);
  prep_closure_loc = λ c f d w. (0, w);
  unwritten_offset = λ i. 77;
  get_struct_offsets = λ ts w. ((0, 8 * length ts, 8, ts), w);
  call = λ cif function holder parameters w. record w { calls = function ∷ w.calls };
  type_size = λ p w. 8;
  address_of = λ t. 600;
}

abbrev pub world : World
world = record {
  has_failed = false;
  stack = [];
  arguments = 0;
  word = λ p. 0;
  signals = [];
  calls = [];
}

-- a state of thread 7 with the blocks `b` below `next`
abbrev pub state_with : ℕ → (Ptr → Option Block) → World → State World
state_with next b w = record {
  heap = record { next = next; budget = 20; block = b };
  world = w;
  thread = 7;
  interrupts = 2;
  errno = 0;
  thread_budget = 4;
  started = [];
  mutex_budget = 3;
  callback_queue = null;
  main_thread_worker = null;
}

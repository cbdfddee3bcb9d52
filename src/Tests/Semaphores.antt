-- ===== src/Tests/Semaphores.antt =====
-- The two variants of the semaphores of the platform, at concrete inputs.
use threaded_ffi_plugin.Prelude.{
  ℕ, zero, suc, ◌≡◌, refl, none, some, List, [], ◌∷◌, ◌==◌, if◌then◌else◌, arith,
}
use threaded_ffi_plugin.Machine.{Ptr, sem, State}
use threaded_ffi_plugin.Semaphores.{semaphore_wait, semaphore_signal}
use threaded_ffi_plugin.Semaphores.Apple.{Dispatch, apple_semaphore_wait, apple_semaphore_signal}
use threaded_ffi_plugin.Semaphores.Variants.{
  Call, waits, signals, units, perform, Ends, Counts, CountsUnits, posix-apple,
}

-- A world of one semaphore, which is its number of units.
instance abbrev dispatch : Dispatch ℕ
dispatch = record {
  create = λ n w. (9, n);
  wait = λ p w. elim w [ zero ↦ none | suc n ↦ some n ];
  signal = λ p w. suc w;
}

abbrev count : Ptr → ℕ → ℕ
count p w = w

dispatch-CountsUnits : CountsUnits count
dispatch-CountsUnits = record {
  empty = λ p w e. rw e refl;
  takes = λ p w n e. (n, rw e refl, refl);
  adds = λ p w. refl;
}

abbrev one_unit : State ℕ
one_unit = record {
  heap = record { next = 6; budget = 0; block = λ p. if p == 5 then some (sem 1) else none };
  world = 1;
  thread = 7;
  interrupts = 2;
  errno = 0;
  thread_budget = 0;
  started = [];
  mutex_budget = 3;
  callback_queue = 0;
  main_thread_worker = 0;
}

abbrev ops : List Call
ops = signals ∷ waits ∷ waits ∷ signals ∷ []

posix-apple_example :
    Ends (Counts 5) (units ops 1) (perform (semaphore_wait 5) (semaphore_signal 5) ops one_unit)
    × Ends
        (λ t m. count 9 t.world ≡ m)
        (units ops 1)
        (perform (apple_semaphore_wait 9) (apple_semaphore_signal 9) ops one_unit)
posix-apple_example =
    posix-apple count dispatch-CountsUnits 5 9 ops 1 one_unit (omega arith) refl refl (omega arith)

one_is_left : units ops 1 ≡ some 1
unfolding units
one_is_left = refl

-- ===== src/TestLibrary/Callbacks.antt =====
-- testLibrary/src/callbacks.c, registerCallback.c and callout.c. What a function pointer of the image
-- does when it is called is a parameter of the model.
use threaded_ffi_plugin.Prelude.{
  ℕ, zero, suc, ◌-◌, Bool, Option, none, some, List, [], ◌∷◌, ◌==◌, if◌then◌else◌,
}
use threaded_ffi_plugin.Machine.{Ptr, Cmd, ok, fault, pure, ◌>>=◌, ◌>>◌}
use threaded_ffi_plugin.Host.{ask, tell}
use threaded_ffi_plugin.TestLibrary.Types.{int, sum_type}

-- The static variables of the library, and the rest of the world.
pub record Library (W : Type 0) : Type 0 where
  pub rest : W
  pub registered_callback : Ptr
  pub value : ℕ

-- What a call through a function pointer does.
abbrev pub SimpleCallback : Type 0 → Type 0
SimpleCallback W = Ptr → ℕ → Cmd (Library W) ℕ

module _ {W : Type 0} (invoke : SimpleCallback W) where
  -- `base + 1` overflows at `INT_MAX`.
  unfoldable pub single_call_to_callback : Ptr → ℕ → Cmd (Library W) ℕ
  single_call_to_callback fun base = elim (sum_type int base 1) [
    | none ↦ λ _. fault
    | some x ↦ invoke fun x
  ]

  -- what is left of the loop, `acc` so far
  unfoldable pub loop : (count : ℕ) → Ptr → ℕ → Cmd (Library W) ℕ
  loop zero fun acc = pure acc
  loop (suc count) fun acc = do next ← invoke fun acc; loop count fun next

  unfoldable pub callback_in_a_loop : Ptr → Cmd (Library W) ℕ
  unfolding loop
  callback_in_a_loop fun = loop 42 fun 0

  unfoldable pub reentring_callback : Ptr → ℕ → Cmd (Library W) ℕ
  reentring_callback fun base = if base == 0 then pure 1 else invoke fun base

  -- `sleep(3)` is left out.
  unfoldable pub other_thread : Ptr → Cmd (Library W) (Unit {0})
  other_thread a_function = do x ← invoke a_function 42; tell (λ w. record w { value = x })

  unfoldable pub registered_loop : (count : ℕ) → ℕ → Cmd (Library W) ℕ
  registered_loop zero acc = pure acc
  registered_loop (suc count) acc = do
    fun ← ask (λ w. w.registered_callback)
    next ← invoke fun acc
    registered_loop count next

  unfoldable pub registered_callback_in_a_loop : Cmd (Library W) ℕ
  unfolding registered_loop
  registered_callback_in_a_loop = registered_loop 42 0

  unfoldable pub reentring_registered_callback : ℕ → Cmd (Library W) ℕ
  reentring_registered_callback base =
      if base == 0 then pure 1 else (do fun ← ask (λ w. w.registered_callback); invoke fun base)

  -- A thread that is started runs `other_thread`. It may be done before `pthread_create` comes back
  -- (`at_once`), or run at any time after: only `pthread_detach` is left then, which does nothing
  -- here. Where none can be started, `pthread_detach` is called with a thread that was never written.
  unfoldable pub callback_from_another_thread : (at_once : Bool) → Ptr → Cmd (Library W) (Unit {0})
  unfolding other_thread
  callback_from_another_thread at_once fun = do
    tell (λ w. record w { value = 0 })
    λ s.
        if s.thread_budget == 0
        then fault
        else ok tt (record s { thread_budget = s.thread_budget - 1; started = fun ∷ s.started })
    if at_once then other_thread fun else pure tt

module _ {W : Type 0} where
  unfoldable pub register_callback : Ptr → Cmd (Library W) (Unit {0})
  register_callback fun = tell (λ w. record w { registered_callback = fun })

  unfoldable pub get_value : Cmd (Library W) ℕ
  get_value = ask (λ w. w.value)

unfoldable pub sum_two_numbers : ℕ → ℕ → Option ℕ
sum_two_numbers = sum_type int

unfoldable pub return_answer : ℕ
return_answer = 42

unfoldable pub short_callout : ℕ
short_callout = 42

unfoldable pub long_callout : ℕ → ℕ
long_callout seconds = 1

-- `a + x + ...`, added from the left
unfoldable pub sum_all : ℕ → List ℕ → Option ℕ
sum_all a [] = some a
sum_all a (x ∷ xs) = elim (sum_type int a x) [ none ↦ none | some c ↦ sum_all c xs ]

unfoldable pub multiple_argument_callout :
    (arg1 arg2 arg3 arg4 arg5 arg6 arg7 arg8 arg9 arg10 : ℕ) → Option ℕ
unfolding sum_all
multiple_argument_callout arg1 arg2 arg3 arg4 arg5 arg6 arg7 arg8 arg9 arg10 =
    sum_all arg1 (arg2 ∷ arg3 ∷ arg4 ∷ arg5 ∷ arg6 ∷ arg7 ∷ arg8 ∷ arg9 ∷ arg10 ∷ [])

-- ===== src/Semaphores.antt =====
-- plugin/src/semaphores: the semaphores of the virtual machine and those of the platform, behind
-- the record of function pointers of plugin/includes/pSemaphore.h. The platform is a POSIX one.
pub mod Wait
pub mod Apple
pub mod Variants
use threaded_ffi_plugin.Prelude.{
  ℕ, zero, suc, ◌+◌, ◌-◌, ◌^◌, true, false, ◌&&◌, none, some, ◌==◌, if◌then◌else◌, leb,
}
use threaded_ffi_plugin.Machine.{
  Ptr, null, Semaphore, SemaphoreFunction, pharo_wait, pharo_signal, pharo_free, platform_wait,
  platform_signal, platform_free, sem, semaphore, as_sem, as_semaphore, State, Cmd, ok, blocked,
  fault, out_of_fuel, pure, ◌>>=◌, ◌>>◌, write, malloc, load, store, free,
}
use threaded_ffi_plugin.Host.{Vm, ask, tell}

-- the `int` -1, and `EINTR` of errno.h
abbrev pub minus_one : ℕ
minus_one = 2 ^ 32 - 1

abbrev pub eintr : ℕ
eintr = 4

-- `SEM_VALUE_MAX`
abbrev pub sem_value_max : ℕ
sem_value_max = 2 ^ 31 - 1

abbrev pub eoverflow : ℕ
eoverflow = 75

module _ {W : Type 0} where
  -- POSIX `sem_wait`: it takes one unit or blocks, and a signal handler ends the wait early.
  unfoldable pub sem_wait : Ptr → Cmd W ℕ
  unfolding load
  sem_wait p s =
      if s.interrupts == 0
      then (do
        count ← load as_sem p
        if count == 0 then blocked else (do store p (sem (count - 1)); pure 0))
          s
      else ok minus_one (record s { errno = eintr; interrupts = s.interrupts - 1 })

  -- POSIX `sem_post`
  unfoldable pub sem_post : Ptr → Cmd W ℕ
  sem_post p = do
    count ← load as_sem p
    if count == sem_value_max
        then (λ s. ok minus_one (record s { errno = eoverflow }))
        else (do store p (sem (count + 1)); pure 0)

  unfoldable pub semaphore_wait_loop : ℕ → Ptr → Cmd W ℕ
  semaphore_wait_loop zero p = λ _. out_of_fuel
  semaphore_wait_loop (suc fuel) p = do
    return_code ← sem_wait p
    λ s. elim (return_code == minus_one && s.errno == eintr) [
      | true ↦ semaphore_wait_loop fuel p s
      | false ↦ ok return_code s
    ]

  unfoldable pub semaphore_wait : Ptr → Cmd W ℕ
  semaphore_wait p s = semaphore_wait_loop (s.interrupts + 1) p s

  unfoldable pub semaphore_signal : Ptr → Cmd W ℕ
  semaphore_signal p = sem_post p

  unfoldable pub semaphore_release : Ptr → Cmd W ℕ
  semaphore_release p = do free p; pure 0

  -- `sem_init` refuses a value above `SEM_VALUE_MAX`; the memory is then not given back.
  unfoldable pub semaphore_new : ℕ → Cmd W Ptr
  semaphore_new initial_value = do
    wrapper ← malloc
    if leb initial_value sem_value_max
        then (do store wrapper (sem initial_value); pure wrapper)
        else pure null

  unfoldable pub platform_semaphore_wait : Ptr → Cmd W ℕ
  unfolding semaphore_wait
  platform_semaphore_wait p = do s ← load as_semaphore p; semaphore_wait s.handle

  unfoldable pub platform_semaphore_signal : Ptr → Cmd W ℕ
  unfolding semaphore_signal
  platform_semaphore_signal p = do s ← load as_semaphore p; semaphore_signal s.handle

  unfoldable pub platform_semaphore_free : Ptr → Cmd W (Unit {0})
  unfolding semaphore_release
  platform_semaphore_free p = do s ← load as_semaphore p; semaphore_release s.handle; free p

  unfoldable pub platform_semaphore_new : ℕ → Cmd W Ptr
  unfolding semaphore_new
  platform_semaphore_new initial_value = do
    p ← malloc
    handle ← semaphore_new initial_value
    store p (
        semaphore (record {
          handle = handle;
          wait = platform_wait;
          signal = platform_signal;
          free = platform_free;
        }))
    pure p

  unfoldable pub pharo_semaphore_new : ℕ → Cmd W Ptr
  pharo_semaphore_new semaphore_index = do
    p ← malloc
    store p (
        semaphore (record {
          handle = semaphore_index;
          wait = pharo_wait;
          signal = pharo_signal;
          free = pharo_free;
        }))
    pure p

  unfoldable pub pharo_semaphore_wait : Ptr → Cmd W ℕ
  pharo_semaphore_wait p = pure 0

  unfoldable pub pharo_semaphore_free : Ptr → Cmd W (Unit {0})
  pharo_semaphore_free p = free p

module _ {W : Type 0} ⦃vm : Vm W⦄ where
  unfoldable pub pharo_semaphore_signal : Ptr → Cmd W ℕ
  pharo_semaphore_signal p = do
    s ← load as_semaphore p
    tell (vm.signal_semaphore_with_index s.handle)
    bad ← ask vm.failed
    pure (if bad then minus_one else 0)

-- A call through one of the pointers of a `Semaphore`. A pointer to a function of another type is
-- undefined behaviour.
module _ {W : Type 0} where
  unfoldable pub call_wait : SemaphoreFunction → Ptr → Cmd W ℕ
  unfolding pharo_semaphore_wait platform_semaphore_wait
  call_wait pharo_wait p = pharo_semaphore_wait p
  call_wait platform_wait p = platform_semaphore_wait p
  call_wait _ p = λ _. fault

  unfoldable pub call_free : SemaphoreFunction → Ptr → Cmd W (Unit {0})
  unfolding pharo_semaphore_free platform_semaphore_free
  call_free pharo_free p = pharo_semaphore_free p
  call_free platform_free p = platform_semaphore_free p
  call_free _ p = λ _. fault

module _ {W : Type 0} ⦃vm : Vm W⦄ where
  unfoldable pub call_signal : SemaphoreFunction → Ptr → Cmd W ℕ
  unfolding pharo_semaphore_signal platform_semaphore_signal
  call_signal pharo_signal p = pharo_semaphore_signal p
  call_signal platform_signal p = platform_semaphore_signal p
  call_signal _ p = λ _. fault

-- `s->wait(s)`, `s->free(s)` and `s->signal(s)`
module _ {W : Type 0} where
  unfoldable pub wait : Ptr → Cmd W ℕ
  unfolding call_wait
  wait p = do s ← load as_semaphore p; call_wait s.wait p

  unfoldable pub release : Ptr → Cmd W (Unit {0})
  unfolding call_free
  release p = do s ← load as_semaphore p; call_free s.free p

module _ {W : Type 0} ⦃vm : Vm W⦄ where
  unfoldable pub signal : Ptr → Cmd W ℕ
  unfolding call_signal
  signal p = do s ← load as_semaphore p; call_signal s.signal p

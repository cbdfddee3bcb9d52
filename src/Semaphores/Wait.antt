-- ===== src/Semaphores/Wait.antt =====
-- What waits, signals and the constructors of plugin/src/semaphores do to a semaphore.
use threaded_ffi_plugin.Prelude.{
  ℕ, zero, suc, ◌+◌, ◌-◌, ◌<◌, ◌≡◌, ◌≢◌, some, ◌==◌, if◌then◌else◌, arith,
}
use threaded_ffi_plugin.Machine.{
  Ptr, null, platform_wait, platform_signal, platform_free, pharo_wait, pharo_signal, pharo_free,
  sem, semaphore, State, ok, blocked, write, load, store,
}
use threaded_ffi_plugin.Host.{Vm}
use threaded_ffi_plugin.Semaphores.{
  sem_value_max, eintr, sem_wait, sem_post, semaphore_wait_loop, minus_one, semaphore_wait, wait,
  signal, call_wait, call_signal, semaphore_signal,
}

-- `p` is a semaphore of the platform whose `sem_t`, at `h`, counts `n`.
pub record IsPlatform {W : Type 0} (s : State W) (p h : Ptr) (n : ℕ) : Type 0 where
  pub ne_null : p ≢ null
  pub handle_ne_null : h ≢ null
  pub shape :
      (s.heap).block p
      ≡ some (
          semaphore (record {
            handle = h;
            wait = platform_wait;
            signal = platform_signal;
            free = platform_free;
          }))
  pub counts : (s.heap).block h ≡ some (sem n)

-- `p` is a semaphore of the virtual machine with index `i`.
pub record IsPharo {W : Type 0} (s : State W) (p i : ℕ) : Type 0 where
  pub ne_null : p ≢ null
  pub shape :
      (s.heap).block p
      ≡ some (
          semaphore
            (record { handle = i; wait = pharo_wait; signal = pharo_signal; free = pharo_free }))

-- What the interrupted attempts of a wait leave behind.
abbrev pub settled : {W : Type 0} → State W → State W
settled s = record s { interrupts = 0; errno = if s.interrupts == 0 then s.errno else eintr }

module _ {W : Type 0} where
  pub wait_loop_pos :
      (fuel : ℕ) (s : State W) (h n : ℕ)
      → s.interrupts < fuel
      → h ≢ null
      → (s.heap).block h ≡ some (sem (suc n))
      → semaphore_wait_loop fuel h s ≡ ok 0 (write (settled s) h (some (sem n)))
  unfolding semaphore_wait_loop sem_wait load store
  wait_loop_pos zero s h n f nn e = absurd (omega arith)
  wait_loop_pos (suc fuel) s h n f nn e =
      let next : State W = record s { interrupts = s.interrupts - 1; errno = eintr } in
      ground (arith, wait_loop_pos fuel next h n)

  pub wait_loop_zero :
      (fuel : ℕ) (s : State W) (h : ℕ)
      → s.interrupts < fuel
      → h ≢ null
      → (s.heap).block h ≡ some (sem 0)
      → semaphore_wait_loop fuel h s ≡ blocked (settled s)
  unfolding semaphore_wait_loop sem_wait load store
  wait_loop_zero zero s h f nn e = absurd (omega arith)
  wait_loop_zero (suc fuel) s h f nn e =
      let next : State W = record s { interrupts = s.interrupts - 1; errno = eintr } in
      ground (arith, wait_loop_zero fuel next h)

  -- A wait takes one unit if there is one, however many times `sem_wait` is interrupted.
  pub wait-suc :
      (p h n : ℕ) (s : State W)
      → IsPlatform s p h (suc n)
      → wait p s ≡ ok 0 (write (settled s) h (some (sem n)))
  unfolding wait call_wait semaphore_wait load
  wait-suc p h n s v = ground (arith, wait_loop_pos (s.interrupts + 1) s h n)

  -- With no unit it blocks.
  pub wait-zero : (p h : ℕ) (s : State W) → IsPlatform s p h 0 → wait p s ≡ blocked (settled s)
  unfolding wait call_wait semaphore_wait load
  wait-zero p h s v = ground (arith, wait_loop_zero (s.interrupts + 1) s h)

  pub wait-pharo : (p i : ℕ) (s : State W) → IsPharo s p i → wait p s ≡ ok 0 s
  unfolding wait call_wait load
  wait-pharo p i s v = ground arith

module _ {W : Type 0} ⦃vm : Vm W⦄ where
  -- A signal adds one unit.
  pub signal-platform :
      (p h n : ℕ) (s : State W)
      → IsPlatform s p h n
      → n < sem_value_max
      → signal p s ≡ ok 0 (write s h (some (sem (n + 1))))
  unfolding signal call_signal semaphore_signal sem_post load store
  signal-platform p h n s v lt = ground arith

  pub signal-pharo :
      (p i : ℕ) (s : State W)
      → IsPharo s p i
      → let w = vm.signal_semaphore_with_index i s.world in
        signal p s ≡ ok (if vm.failed w then minus_one else 0) (record s { world = w })
  unfolding signal call_signal load
  signal-pharo p i s v = ground arith

-- ===== src/Semaphores/Variants.antt =====
-- The two variants of the semaphores of the platform, compared on the same sequences of calls.
use threaded_ffi_plugin.Prelude.{
  ℕ, zero, suc, ◌+◌, ◌≤◌, ◌<◌, ◌≡◌, ◌≢◌, refl, ap, ◌∙◌, Option, none, some, List, [], ◌∷◌, arith,
}
use threaded_ffi_plugin.Machine.{
  Ptr, null, sem, State, Cmd, Run, ok, blocked, write, load, store, ◌>>◌, skip,
}
use threaded_ffi_plugin.Semaphores.{semaphore_wait, semaphore_signal, sem_post, sem_value_max}
use threaded_ffi_plugin.Semaphores.Wait.{settled, wait_loop_pos, wait_loop_zero}
use threaded_ffi_plugin.Semaphores.Apple.{Dispatch, apple_semaphore_wait, apple_semaphore_signal}

pub data Call : Type 0 where
  waits signals : Call

abbrev pub signals_in : List Call → ℕ
signals_in [] = 0
signals_in (signals ∷ cs) = suc (signals_in cs)
signals_in (waits ∷ cs) = signals_in cs

-- The units that are left, or `none` where a wait blocks.
unfoldable pub units : List Call → ℕ → Option ℕ
units [] n = some n
units (signals ∷ cs) n = units cs (suc n)
units (waits ∷ cs) zero = none
units (waits ∷ cs) (suc n) = units cs n

-- the calls in order
unfoldable pub perform : {W : Type 0} → (wait signal : Cmd W ℕ) → List Call → Cmd W (Unit {0})
perform wait signal [] = skip
perform wait signal (waits ∷ cs) = do wait; perform wait signal cs
perform wait signal (signals ∷ cs) = do signal; perform wait signal cs

-- The run ends with the units that `o` gives, as `has` says, or blocks where it gives none.
abbrev pub Ends : {W : Type 0} → (State W → ℕ → Type 0) → Option ℕ → Run W (Unit {0}) → Type 0
Ends {W} has none r = (s : State W) × (r ≡ blocked s)
Ends {W} has (some n) r = (s : State W) × (r ≡ ok tt s) × has s n

-- the `sem_t` at `h` counts `n`
abbrev pub Counts : {W : Type 0} → Ptr → State W → ℕ → Type 0
Counts h s n = (s.heap).block h ≡ some (sem n)

module _ {W : Type 0} (h : Ptr) (real : h ≢ null) where
  posted :
      (s : State W) (n : ℕ)
      → Counts h s n
      → n < sem_value_max
      → semaphore_signal h s ≡ ok 0 (write s h (some (sem (suc n))))
  unfolding semaphore_signal sem_post load store
  posted s n at small = ground (arith, at, real)

  pub posix-units :
      (cs : List Call) (n : ℕ) (s : State W)
      → Counts h s n
      → n + signals_in cs ≤ sem_value_max
      → Ends (Counts h) (units cs n) (perform (semaphore_wait h) (semaphore_signal h) cs s)
  unfolding units perform semaphore_wait
  posix-units [] n s at small = (s, refl, at)
  posix-units (waits ∷ cs) zero s at small =
      (settled s, rw (wait_loop_zero (s.interrupts + 1) s h (omega arith) real at) refl)
  posix-units (waits ∷ cs) (suc n) s at small =
      rw (wait_loop_pos (s.interrupts + 1) s h n (omega arith) real at) (
        posix-units cs n (write (settled s) h (some (sem n))) (ground arith) (omega (arith, small)))
  posix-units (signals ∷ cs) n s at small = rw (posted s n at (omega (arith, small))) (
      posix-units cs (suc n) (write s h (some (sem (suc n)))) (ground arith) (omega (arith, small)))

-- What libdispatch documents: `count` is the number of units, a wait takes one or blocks, and a signal
-- adds one.
pub record CountsUnits {W : Type 0} ⦃dispatch : Dispatch W⦄ (count : Ptr → W → ℕ) : Type 0 where
  pub empty : (p : Ptr) (w : W) → count p w ≡ 0 → dispatch.wait p w ≡ none
  pub takes :
      (p : Ptr) (w : W) (n : ℕ)
      → count p w ≡ suc n
      → (w' : W) × (dispatch.wait p w ≡ some w') × (count p w' ≡ n)
  pub adds : (p : Ptr) (w : W) → count p (dispatch.signal p w) ≡ suc (count p w)

module _ {W : Type 0} ⦃dispatch : Dispatch W⦄ (count : Ptr → W → ℕ) (law : CountsUnits count)
    (p : Ptr) where
  abbrev pub Has : State W → ℕ → Type 0
  Has s n = count p s.world ≡ n

  apple-blocked :
      (s : State W) → dispatch.wait p s.world ≡ none → apple_semaphore_wait p s ≡ blocked s
  unfolding apple_semaphore_wait
  apple-blocked s e = rw e refl

  apple-taken :
      (s : State W) (w' : W)
      → dispatch.wait p s.world ≡ some w'
      → apple_semaphore_wait p s ≡ ok 0 (record s { world = w' })
  unfolding apple_semaphore_wait
  apple-taken s w' e = rw e refl

  pub apple-units :
      (cs : List Call) (n : ℕ) (s : State W)
      → Has s n
      → Ends Has (units cs n) (perform (apple_semaphore_wait p) (apple_semaphore_signal p) cs s)
  unfolding units perform apple_semaphore_signal
  apple-units [] n s at = (s, refl, at)
  apple-units (waits ∷ cs) zero s at = (s, rw (apple-blocked s (law.empty p s.world at)) refl)
  apple-units (waits ∷ cs) (suc n) s at =
      let (w', e, left) = law.takes p s.world n at in
      rw (apple-taken s w' e) (apple-units cs n (record s { world = w' }) left)
  apple-units (signals ∷ cs) n s at =
      apple-units cs (suc n) (record s { world = dispatch.signal p s.world })
        (law.adds p s.world ∙ ap (λ m. suc m) at)

module _ {W : Type 0} ⦃dispatch : Dispatch W⦄ where
  -- On the same sequence of waits and signals the variant for POSIX and the one for macOS block alike,
  -- and else end with the same number of units, those that `units` counts; the POSIX one must have room for the signals.
  pub posix-apple :
      (count : Ptr → W → ℕ)
      → CountsUnits count
      → (h p : Ptr) (cs : List Call) (n : ℕ) (s : State W) → h ≢ null
      → Counts h s n
      → count p s.world ≡ n
      → n + signals_in cs ≤ sem_value_max
      → Ends (Counts h) (units cs n) (perform (semaphore_wait h) (semaphore_signal h) cs s)
        × Ends
            (λ t m. count p t.world ≡ m)
            (units cs n)
            (perform (apple_semaphore_wait p) (apple_semaphore_signal p) cs s)
  posix-apple count law h p cs n s real at has small =
      (posix-units h real cs n s at small, apple-units count law p cs n s has)

-- ===== src/Semaphores/Apple.antt =====
-- The variant of plugin/src/semaphores/platformSemaphore.c for macOS. Grand Central Dispatch is a
-- parameter: operations over the world.
use threaded_ffi_plugin.Prelude.{ℕ, Option, none, some}
use threaded_ffi_plugin.Machine.{Ptr, Cmd, State, Run, ok, blocked, pure, ◌>>◌}
use threaded_ffi_plugin.Host.{call, tell}

-- `dispatch_semaphore_create`, `dispatch_semaphore_wait` without a limit of time, which gives nothing
-- where it blocks, and `dispatch_semaphore_signal`
pub record Dispatch (W : Type 0) : Type 0 where
  pub create : ℕ → W → Ptr × W
  pub wait : Ptr → W → Option W
  pub signal : Ptr → W → W

abbrev pub waited : {W : Type 0} → State W → Option W → Run W ℕ
waited s none = blocked s
waited s (some w) = ok 0 (record s { world = w })

module _ {W : Type 0} ⦃dispatch : Dispatch W⦄ where
  unfoldable pub apple_semaphore_new : ℕ → Cmd W Ptr
  apple_semaphore_new initial_value = call (dispatch.create initial_value)

  unfoldable pub apple_semaphore_wait : Ptr → Cmd W ℕ
  apple_semaphore_wait p s = waited s (dispatch.wait p s.world)

  unfoldable pub apple_semaphore_signal : Ptr → Cmd W ℕ
  apple_semaphore_signal p = do tell (dispatch.signal p); pure 0

  -- The call of `dispatch_release` is commented out in the source.
  unfoldable pub apple_semaphore_release : Ptr → Cmd W ℕ
  apple_semaphore_release p = pure 0

-- ===== src/Primitives/Module.antt =====
-- plugin/src/PThreadedPlugin.c: the plugin as a module of the virtual machine.
use Prim.Native.String.{String}
use threaded_ffi_plugin.Prelude.{ℕ, Bool, false, ◌&&◌, leb, ◌==◌}
use threaded_ffi_plugin.Machine.{Cmd, ok, pure, ◌>>=◌, ◌>>◌}
use threaded_ffi_plugin.Host.{Vm, Ffi, ask, tell}
use threaded_ffi_plugin.Worker.{worker_new_spawning, worker_run}

unfoldable pub get_module_name : String
get_module_name = "PThreadedPlugin * ThreadedFFI-Plugin-PGE.1 (:P)"

module _ {W : Type 0} ⦃vm : Vm W⦄ where
  unfoldable pub initialise_module : Cmd W ℕ
  unfolding worker_new_spawning
  initialise_module = do
    w ← worker_new_spawning false
    λ s. ok tt (record s { main_thread_worker = w })
    tell vm.schedule_in_main_thread
    pure 1

  -- `major` and `minor` are `VM_PROXY_MAJOR` and `VM_PROXY_MINOR` of the headers that the plugin is
  -- compiled with.
  unfoldable pub set_interpreter : (major minor : ℕ) → Cmd W Bool
  set_interpreter major minor =
      ask (λ w. (vm.major_version w == major) && leb minor (vm.minor_version w))

module _ {W : Type 0} ⦃vm : Vm W⦄ ⦃ffi : Ffi W⦄ where
  unfoldable pub run_in_main_thread : ℕ → Cmd W ℕ
  unfolding worker_run
  run_in_main_thread fuel = do λ s. worker_run fuel s.main_thread_worker s; pure 1

-- ===== src/Api/Start.antt =====
-- VirtualMachine.cpp: VMStart. The module is code outside the repository: what dlopen and dlsym
-- find is the argument.
use project.Prelude.{ℕ, ◌*◌, ◌%◌, Bool, false, Option, none, some, if◌then◌else◌}
use project.Machine.Data.{Machine}
use project.Machine.Signals.{Channels, machine_initialize, enable_signals, request_alarm}
use project.Machine.Requests
use project.Vm.Data.{ThreadStore, success, failure}
use project.Vm.Run.{Run, done, undefined, aborted, M, bind}
use project.Vm.Create.{create_main_thread, create_idle_thread, delete_thread_store}

abbrev pub on_machine : (Machine → Machine) → ThreadStore → ThreadStore
on_machine f s = record s { machine = f s.machine }

-- The two threads, and the store as the module finds it.
unfoldable pub boot : ℕ → ℕ → ThreadStore → Option ThreadStore
boot param tickms s = booted (create_main_thread param s)
  where
    booted : Option ThreadStore → Option ThreadStore
    booted none = none
    booted (some s') = some (
        on_machine (request_alarm ((1000 * tickms) % 4294967296))
          (on_machine enable_signals (create_idle_thread s')))

-- What dlopen and dlsym give: whether the library was opened, and its VMMain, a computation.
pub record Library : Type 0 where
  pub opened : Bool
  pub vm_main : Option (M (Unit {0}))

-- VMLoadModule and VMUnloadModule; `module_loaded` is whether VMLibraryHandle is not NULL.
unfoldable pub load_module : Library → ThreadStore → ThreadStore × Option (M (Unit {0}))
load_module b s = (record s { module_loaded = b.opened }, if b.opened then b.vm_main else none)

unfoldable pub unload_module : ThreadStore → ThreadStore
unload_module s = record s { module_loaded = false }

abbrev pub run_module : Option (M (Unit {0})) → M ℕ
run_module none s = done failure (on_machine Requests.terminate (unload_module s))
run_module (some vm_main) s =
    bind (vm_main s)
      λ _ s'. done success (on_machine Requests.terminate (delete_thread_store (unload_module s')))

abbrev pub start_with : Library → Option ThreadStore → Run ℕ
start_with b none = undefined
start_with b (some s) = let (s', vm_main) = load_module b s in run_module vm_main s'

abbrev pub initialized_with : ℕ → ℕ → Library → ThreadStore → Option Machine → Run ℕ
initialized_with param tickms b s none = aborted
initialized_with param tickms b s (some m) =
    start_with b (boot param tickms (record s { machine = m }))

unfoldable pub vm_start : Channels → ℕ → ℕ → Library → M ℕ
vm_start c param tickms b s = initialized_with param tickms b s (machine_initialize c s.machine)

-- ===== src/Vm/Entry.antt =====
-- UtilityFunctions.cpp: safeEntry, the skeleton of every thread, around the code of the module.
use project.Machine.Signals.{enable_signals}
use project.Vm.Data.{ThreadStore}
use project.Vm.Run.{aborted, M, bind}
use project.Vm.Threads.{terminate_current_thread}
use project.Prelude.{ℕ}

-- What stands before the entry function of the module, and in `idle` before its empty loop.
unfoldable pub safe_entry_begin : ThreadStore → ThreadStore
safe_entry_begin s = record s { machine = enable_signals s.machine }

-- What stands behind it. A thread that comes back from its end returns to MachineContextCreateBoot,
-- which calls abort().
unfoldable pub safe_entry_end : ℕ → M (Unit {0})
safe_entry_end fuel s = bind (terminate_current_thread fuel s) (λ _ _. aborted)

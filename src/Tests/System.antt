-- ===== src/Tests/System.antt =====
-- VirtualMachine.cpp at a concrete store, and a run of the system.
use project.Prelude.{ℕ, ◌≡◌, refl, true, Option, none, some, arith}
use project.Machine.Signals.{enable_signals, request_alarm}
use project.Vm.Data.{ThreadStore, module_function, timeout_immediate, success}
use project.Vm.Create.{
  first_state, stack_for, new_tcb, insert_by, insert_thread, new_thread_store, create_main_thread,
  create_idle_thread,
}
use project.Vm.Timer.{timer_interrupt}
use project.Api.Mutexes.{vm_mutex_acquire, vm_mutex_release}
use project.Api.Start.{boot}
use project.Safety.Safe.{Safe, Any}
use project.Spec.TryLock.{IsTried, vm_mutex_acquire-IsTried}
use project.Vm.Threads.{find_in, find_in_dead, find_mutex_by_id, find_thread_by_id}
use project.Vm.Run.{done}
use project.Api.Threads.{vm_thread_create, vm_thread_state}
use project.Safety.Calls.Common.{Restores}
use project.Safety.Calls.Mutexes.{Releases, vm_mutex_acquire-Safe, vm_mutex_release-Safe}
use project.Spec.Refused.{IsAnswered}
use project.Spec.Calls.{call-IsAnswered}
use project.Spec.Created.{create-state}
use project.System.Defs.{
  mutex_release, Context, fresh, kernel, exec, thread_create, timer, here, next,
}
use project.System.Sound.{IsSound, run-IsSound, exec-Safe}
use project.Tests.Store.{machine, threads, locks, store, store-Inv}

abbrev new_store : ThreadStore
new_store = new_thread_store threads locks 0 true machine

abbrev or_store : Option ThreadStore → ThreadStore
or_store none = store
or_store (some s) = s

abbrev booted : ThreadStore
booted = or_store (boot 0 100 new_store)

abbrev contexts : ℕ → Context
contexts t = fresh

-- The timer fires right after the start.
run-IsSound_example : IsSound (kernel (timer_interrupt booted) contexts)
unfolding boot new_thread_store create_main_thread create_idle_thread new_tcb insert_thread
    insert_by first_state stack_for enable_signals request_alarm
run-IsSound_example =
    run-IsSound threads locks 0 true machine 0 100 {s = booted}
      {a = kernel (timer_interrupt booted) contexts} refl (next here (timer booted contexts))

exec-Safe_example :
    Safe 0 Any store (exec (thread_create (some (module_function 7)) 0 4096 3 true) store)
exec-Safe_example =
    exec-Safe (thread_create (some (module_function 7)) 0 4096 3 true) store store-Inv refl
      (omega arith, omega arith)

vm_mutex_acquire-Safe_example : Safe 0 (Restores machine.mask) store (vm_mutex_acquire 1 5 store)
vm_mutex_acquire-Safe_example = vm_mutex_acquire-Safe 1 5 store store-Inv refl

vm_mutex_release-Safe_example : Safe 0 (Releases machine.mask) store (vm_mutex_release 0 store)
vm_mutex_release-Safe_example = vm_mutex_release-Safe 0 store store-Inv

free_found : find_mutex_by_id 1 store ≡ some 1
unfolding find_mutex_by_id
free_found = refl

vm_mutex_acquire-IsTried_example : IsTried 1 store (vm_mutex_acquire 1 timeout_immediate store)
vm_mutex_acquire-IsTried_example = vm_mutex_acquire-IsTried 1 1 store free_found refl

-- The second mutex has no owner.
call-IsAnswered_example : IsAnswered (mutex_release 1) store
call-IsAnswered_example = call-IsAnswered (mutex_release 1) store

-- No thread has the identifier that the next one is given.
three_missing : find_thread_by_id 3 store ≡ none
unfolding find_thread_by_id find_in find_in_dead
three_missing = refl

create-state_example :
    (s' : ThreadStore) × (vm_thread_create (some (module_function 7)) 5 4096 2 true store
      ≡ done (record { status = success; out = some 3 }) s')
    × (vm_thread_state 3 true s' ≡ done (record { status = success; out = some 0 }) s')
create-state_example = create-state 7 5 4096 2 store store-Inv three_missing

-- ===== src/Api/Threads.antt =====
-- VirtualMachine.cpp: VMThreadCreate, VMThreadDelete, VMThreadActivate, VMThreadTerminate,
-- VMThreadID, VMThreadState and VMThreadSleep.
use project.Prelude.{ℕ, Option, none, some, Bool, true, ◌==◌, if◌then◌else◌}
use project.Machine.Data.{SigSet}
use project.Vm.Data.{
  Entry, ThreadState, dead, running, ready, waiting, is_dead, ThreadStore, success,
  invalid_parameter, invalid_id, invalid_state, timeout_infinite, timeout_immediate,
}
use project.Vm.Run.{Run, undefined, M, bind}
use project.Vm.Wait.{sleep_current_thread}
use project.Vm.Threads.{find_thread_by_id, activate_dead_thread, delete_dead_thread, terminate}
use project.Vm.Create.{new_tcb, insert_thread}
use project.Api.Call.{Reply, suspend, answer}

abbrev pub state_code : ThreadState → ℕ
state_code dead = 0
state_code running = 1
state_code ready = 2
state_code waiting = 3

abbrev pub delete_found : SigSet → Option ℕ → M Reply
delete_found saved none s = answer saved invalid_id none s
delete_found saved (some t) s =
    if is_dead (s.tcb t).state
    then bind (delete_dead_thread t s) (λ _. answer saved success none)
    else answer saved invalid_state none s

unfoldable pub vm_thread_delete : ℕ → M Reply
vm_thread_delete id s =
    let (s1, saved) = suspend s in delete_found saved (find_thread_by_id id s1) s1

abbrev pub terminate_found : ℕ → SigSet → Option ℕ → M Reply
terminate_found fuel saved none s = answer saved invalid_id none s
terminate_found fuel saved (some t) s =
    if is_dead (s.tcb t).state
    then answer saved invalid_state none s
    else bind (terminate fuel t s) (λ _. answer saved success none)

-- `fuel` bounds the rounds of TCB::releaseMutexes.
unfoldable pub vm_thread_terminate : ℕ → ℕ → M Reply
vm_thread_terminate fuel id s =
    let (s1, saved) = suspend s in terminate_found fuel saved (find_thread_by_id id s1) s1

abbrev pub state_found : SigSet → Option ℕ → M Reply
state_found saved none s = answer saved invalid_id none s
state_found saved (some t) s = answer saved success (some (state_code (s.tcb t).state)) s

unfoldable pub vm_thread_state : ℕ → Bool → M Reply
vm_thread_state id has_ref s =
    let (s1, saved) = suspend s in
    if has_ref
    then state_found saved (find_thread_by_id id s1) s1
    else answer saved invalid_parameter none s1

abbrev pub activate_found : SigSet → Option ℕ → M Reply
activate_found saved none s = answer saved invalid_id none s
activate_found saved (some t) s =
    if is_dead (s.tcb t).state
    then bind (activate_dead_thread t s) (λ _. answer saved success none)
    else answer saved invalid_state none s

unfoldable pub vm_thread_activate : ℕ → M Reply
vm_thread_activate id s =
    let (s1, saved) = suspend s in activate_found saved (find_thread_by_id id s1) s1

unfoldable pub vm_thread_id : Bool → M Reply
vm_thread_id has_ref s =
    let (s1, saved) = suspend s in
    if has_ref
    then answer saved success (some (s1.tcb s1.current_thread).thread_id) s1
    else answer saved invalid_parameter none s1

abbrev pub created : SigSet → ℕ → Option ThreadStore → Run Reply
created saved id none = undefined
created saved id (some s) = answer saved success (some id) s

abbrev pub create_with : SigSet → Option Entry → ℕ → ℕ → ℕ → Bool → M Reply
create_with saved (some entry) param memsize prio true s =
    let (s', t, id) = new_tcb entry param memsize prio s in created saved id (insert_thread t s')
create_with saved _ param memsize prio _ s = answer saved invalid_parameter none s

unfoldable pub vm_thread_create : Option Entry → ℕ → ℕ → ℕ → Bool → M Reply
vm_thread_create entry param memsize prio has_ref s =
    let (s1, saved) = suspend s in create_with saved entry param memsize prio has_ref s1

unfoldable pub vm_thread_sleep : ℕ → M Reply
vm_thread_sleep tick s =
    let (s1, saved) = suspend s in
    if tick == timeout_infinite
    then answer saved invalid_parameter none s1
    else bind (sleep_current_thread (if tick == timeout_immediate then 0 else tick) s1)
        (λ _. answer saved success none)

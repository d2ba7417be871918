-- ===== src/Spec/Calls.antt =====
-- VirtualMachine.cpp: the answer of every call, on every branch.
use project.Prelude.{not, none, ◌==◌, if◌then◌else◌}
use project.Machine.Signals.{suspend_signals}
use project.Vm.Data.{
  ThreadStore, is_dead, invalid_parameter, invalid_state, timeout_infinite, timeout_immediate,
}
use project.Vm.Wait.{sleep_current_thread}
use project.Vm.Threads.{find_mutex_by_id, find_thread_by_id}
use project.Vm.Entry.{safe_entry_end}
use project.Api.Call.{suspend}
use project.Api.Mutexes.{
  vm_mutex_create, vm_mutex_delete, vm_mutex_query, vm_mutex_acquire, vm_mutex_release,
}
use project.Api.Threads.{
  vm_thread_create, vm_thread_delete, vm_thread_activate, vm_thread_terminate, vm_thread_id,
  vm_thread_state, vm_thread_sleep,
}
use project.Api.Files.{vm_file_open, vm_file_close, vm_file_read, vm_file_write, vm_file_seek}
use project.System.Defs.{
  Call, mutex_create, mutex_delete, mutex_query, mutex_acquire, mutex_release, thread_create,
  thread_delete, thread_activate, thread_terminate, thread_id, thread_state, thread_sleep,
  file_open, file_close, file_read, file_write, file_seek, entry_returns,
}
use project.Spec.Refused.{demand, on_thread, IsGranted, IsAnswered, Ends-bind}
use project.Spec.Answers.{blocked, granted, then_granted, demanded, demanded_not, performed}
use project.Spec.Answered.{
  looked_up, thread_delete-Answers, thread_activate-Answers, thread_terminate-Answers,
  thread_state-Answers, mutex_delete-Answers, mutex_query-Answers, mutex_acquire-Answers,
  mutex_release-Answers, thread_create-Answers, file_read-Answers, file_write-Answers,
  file_open-Answers,
}

-- For every call and every store: if `refusal` has a status for it, which is the code's and not always
-- that of Project02.pdf, the call answers with that status at once, and the store is as it was, but that VMMutexRelease leaves all signals blocked where the
-- state is invalid; otherwise the call answers, if it comes to its end, with success or with failure,
-- whatever other threads have done in between.
pub call-IsAnswered : (x : Call) (s : ThreadStore) → IsAnswered x s
unfolding vm_mutex_create vm_mutex_delete vm_mutex_query vm_mutex_acquire vm_mutex_release
    vm_thread_create vm_thread_delete vm_thread_activate vm_thread_terminate vm_thread_id
    vm_thread_state vm_thread_sleep vm_file_open vm_file_close vm_file_read vm_file_write
    vm_file_seek blocked suspend suspend_signals find_mutex_by_id
call-IsAnswered (mutex_create g r) s = demanded r invalid_parameter s none _ (granted _ _ _)
call-IsAnswered (mutex_delete id) s = mutex_delete-Answers s (find_mutex_by_id id (blocked s))
call-IsAnswered (mutex_query id r) s =
    demanded r invalid_parameter s _ _ (mutex_query-Answers s (find_mutex_by_id id (blocked s)))
call-IsAnswered (mutex_acquire id timeout) s =
    mutex_acquire-Answers s timeout (find_mutex_by_id id (blocked s))
call-IsAnswered (mutex_release id) s = mutex_release-Answers s id (find_mutex_by_id id (blocked s))
call-IsAnswered (thread_create e p m prio r) s = thread_create-Answers s e p m prio r
call-IsAnswered (thread_delete id) s =
    looked_up s (λ o. on_thread o λ t. demand (is_dead (s.tcb t).state) invalid_state none) id _
      (thread_delete-Answers s (find_thread_by_id id (blocked s)))
call-IsAnswered (thread_activate id) s =
    looked_up s (λ o. on_thread o λ t. demand (is_dead (s.tcb t).state) invalid_state none) id _
      (thread_activate-Answers s (find_thread_by_id id (blocked s)))
call-IsAnswered (thread_terminate f id) s =
    looked_up s (λ o. on_thread o λ t. demand (not (is_dead (s.tcb t).state)) invalid_state none) id
      _ (thread_terminate-Answers s f (find_thread_by_id id (blocked s)))
call-IsAnswered (thread_id r) s = demanded r invalid_parameter s none _ (granted _ _ _)
call-IsAnswered (thread_state id r) s = demanded r invalid_parameter s _ _ (
    looked_up s (λ o. on_thread o λ t. none) id _
      (thread_state-Answers s (find_thread_by_id id (blocked s))))
call-IsAnswered (thread_sleep tick) s =
    demanded_not (tick == timeout_infinite) invalid_parameter s none _ (
      then_granted _
        (sleep_current_thread (if tick == timeout_immediate then 0 else tick) (blocked s)))
call-IsAnswered (file_open n f m r) s = file_open-Answers s n f m r
call-IsAnswered (file_close fd) s = performed _ _ _ _
call-IsAnswered (file_read fd a n) s = file_read-Answers s fd a n
call-IsAnswered (file_write fd a n) s = file_write-Answers s fd a n
call-IsAnswered (file_seek fd o w r) s = demanded r invalid_parameter s none _ (performed _ _ _ _)
call-IsAnswered (entry_returns f) s = Ends-bind IsGranted (safe_entry_end f s) _ (λ a u. tt)

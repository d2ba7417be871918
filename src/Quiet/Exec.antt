-- ===== src/Quiet/Exec.antt =====
-- VirtualMachine.cpp and UtilityFunctions.cpp: the requests of every call, and of the timer.
use project.Prelude.{
  ℕ, ◌+◌, ◌≤◌, ◌≡◌, refl, ◌≢◌, inl, inr, Option, none, some, List, Bool-cases, length, All,
}
use project.Machine.Data.{payload_capacity}
use project.Machine.Signals.{suspend_signals, resume_signals}
use project.Machine.Requests
use project.Vm.Data.{ThreadStore, priority_high}
use project.Vm.Run.{Run, done, aborted}
use project.Vm.Threads.{terminate, terminate_current_thread}
use project.Vm.Entry.{safe_entry_end}
use project.Vm.Timer.{tick_all, is_over, schedule_or_stop, timer_event, timer_interrupt}
use project.Api.Call.{Reply}
use project.Link.Defs.{IsInt, terminates}
use project.System.Defs.{
  Call, drop_reply, exec, mutex_create, mutex_delete, mutex_query, mutex_acquire, mutex_release,
  thread_create, thread_delete, thread_activate, thread_terminate, thread_id, thread_state,
  thread_sleep, file_open, file_close, file_read, file_write, file_seek, entry_returns,
}
use project.Spec.Run.{Maybe}
use project.Spec.Kept.{Kept}
use project.Spec.Timer.{tick_all-Kept}
use project.Quiet.Run.{view-of}
use project.Quiet.Talk.{
  Still, Still-of, asks, Stills, Talks, Talks-bind, Talks-after, Talks-Stills, Stills-bind,
  Stills-after, Stills-Tame, signals-Still, IsQuiet-of,
}
use project.Quiet.Schedule.{schedule-Tame}
use project.Quiet.Threads.{terminate-Tame}
use project.Quiet.Calls.{
  vm_mutex_create-Stills, vm_mutex_delete-Stills, vm_mutex_query-Stills, vm_mutex_acquire-Stills,
  vm_mutex_release-Stills, vm_thread_create-Stills, vm_thread_delete-Stills,
  vm_thread_activate-Stills, vm_thread_terminate-Stills, vm_thread_id-Stills,
  vm_thread_state-Stills, vm_thread_sleep-Stills,
}
use project.Quiet.Files.{
  vm_file_open-Talks, vm_file_close-Talks, vm_file_read-Talks, vm_file_write-Talks,
  vm_file_seek-Talks,
}

-- The arguments of the calls on files: an `int` each, a C string, and what fits into a message,
-- also the data of a read.
abbrev pub IsProper : Call → Type 0
IsProper (file_open name flags mode has_ref) =
    ((l : List ℕ) → name ≡ some l → All (λ b. b ≢ 0) l × (length l + 9 ≤ payload_capacity))
    × IsInt flags
    × IsInt mode
IsProper (file_close fd) = IsInt fd
IsProper (file_read fd address size) =
    IsInt fd × ((n : ℕ) → size ≡ some n → n + 4 ≤ payload_capacity)
IsProper (file_write fd address size) =
    IsInt fd × ((n : ℕ) → size ≡ some n → n + 8 ≤ payload_capacity)
IsProper (file_seek fd offset whence has_ref) = IsInt fd × IsInt offset × IsInt whence
IsProper _ = Unit {0}

drop_reply-Stills : (s : ThreadStore) (r : Run Reply) → Stills s r → Stills s (drop_reply r)
drop_reply-Stills s r h = Stills-bind s r (λ _ u. done tt u) h (λ a u. Still-of u u refl)

drop_reply-Talks : (s : ThreadStore) (r : Run Reply) → Talks s r → Talks s (drop_reply r)
drop_reply-Talks s r h = Talks-bind s r (λ _ u. done tt u) h (λ a u. Still-of u u refl)

no_request : (s : ThreadStore) (r : Run Reply) → Stills s r → Talks s (drop_reply r)
no_request s r h = Talks-Stills s (drop_reply r) (drop_reply-Stills s r h)

safe_entry_end-Stills : (fuel : ℕ) (s : ThreadStore) → Stills s (safe_entry_end fuel s)
unfolding safe_entry_end terminate_current_thread
safe_entry_end-Stills fuel s =
    Stills-bind s (terminate fuel s.current_thread s) (λ _ _. aborted)
      (Stills-Tame s (terminate fuel s.current_thread s) (terminate-Tame fuel s.current_thread s))
      (λ a u. tt)

-- Whatever call a module makes, with an `int` for each `int`, a name that is a C string, and names and
-- data that fit into a message: at every switch and at the end, the pending callbacks, the request
-- channel and the counter of requests are those of the start, or of the moment at which the thread
-- came back, but for one request that the current thread may have made by the MachineFile functions or
-- MachineTerminate, with such arguments and the callback of the virtual machine; and no thread waits
-- for a reply that did not wait then, but for a thread that has made that request.
pub exec-Talks : (x : Call) (s : ThreadStore) → IsProper x → Talks s (exec x s)
unfolding exec
exec-Talks (mutex_create g r) s a = no_request s _ (vm_mutex_create-Stills g r s)
exec-Talks (mutex_delete id) s a = no_request s _ (vm_mutex_delete-Stills id s)
exec-Talks (mutex_query id r) s a = no_request s _ (vm_mutex_query-Stills id r s)
exec-Talks (mutex_acquire id t) s a = no_request s _ (vm_mutex_acquire-Stills id t s)
exec-Talks (mutex_release id) s a = no_request s _ (vm_mutex_release-Stills id s)
exec-Talks (thread_create e p m prio r) s a =
    no_request s _ (vm_thread_create-Stills e p m prio r s)
exec-Talks (thread_delete id) s a = no_request s _ (vm_thread_delete-Stills id s)
exec-Talks (thread_activate id) s a = no_request s _ (vm_thread_activate-Stills id s)
exec-Talks (thread_terminate f id) s a = no_request s _ (vm_thread_terminate-Stills f id s)
exec-Talks (thread_id r) s a = no_request s _ (vm_thread_id-Stills r s)
exec-Talks (thread_state id r) s a = no_request s _ (vm_thread_state-Stills id r s)
exec-Talks (thread_sleep t) s a = no_request s _ (vm_thread_sleep-Stills t s)
exec-Talks (file_open n f m r) s (h, hf, hm) =
    drop_reply-Talks s _ (vm_file_open-Talks n f m r s h hf hm)
exec-Talks (file_close fd) s a = drop_reply-Talks s _ (vm_file_close-Talks fd s a)
exec-Talks (file_read fd p n) s (hf, h) = drop_reply-Talks s _ (vm_file_read-Talks fd p n s hf h)
exec-Talks (file_write fd p n) s (hf, h) = drop_reply-Talks s _ (vm_file_write-Talks fd p n s hf h)
exec-Talks (file_seek fd o w r) s (hf, ho, hw) =
    drop_reply-Talks s _ (vm_file_seek-Talks fd o w r s hf ho hw)
exec-Talks (entry_returns f) s a = Talks-Stills s _ (safe_entry_end-Stills f s)

schedule_or_stop-Talks :
    (s : ThreadStore) (o : Option (ThreadStore × List ℕ))
    → Maybe (λ r. Kept s r.0) o
    → Talks s (schedule_or_stop o)
schedule_or_stop-Talks s none h = tt
schedule_or_stop-Talks s (some (u, left)) h =
    elim (Bool-cases (is_over (record u { wait_list = left }))) [
      | inl e ↦ rw e (
          asks (record u { wait_list = left }) (Requests.terminate u.machine) same terminates refl
            (IsQuiet-of _ _ refl) (λ t w. inl w))
      | inr e ↦ rw e (
          Talks-Stills s _ (
            Stills-after s (record u { wait_list = left }) _ same
              (Stills-Tame (record u { wait_list = left }) _
                (schedule-Tame priority_high (record u { wait_list = left })))))
    ]
  where
    same : Still s (record u { wait_list = left })
    same = Still-of s (record u { wait_list = left }) (view-of s u h)

timer_event-Talks : (s : ThreadStore) → Talks s (timer_event s)
unfolding timer_event
timer_event-Talks s =
    schedule_or_stop-Talks s (tick_all s.wait_list s) (tick_all-Kept s.wait_list s)

-- The same for the timer, which may ask the helper process to end.
pub timer_interrupt-Talks : (s : ThreadStore) → Talks s (timer_interrupt s)
unfolding timer_interrupt suspend_signals resume_signals
timer_interrupt-Talks s =
    let s1 : ThreadStore = record s { machine = (suspend_signals s.machine).0 } in
    Talks-after s s1 _ (signals-Still s (suspend_signals s.machine).0 refl refl refl refl) (
      Talks-bind s1 (timer_event s1) _ (timer_event-Talks s1)
        (λ a u. signals-Still u _ refl refl refl refl))

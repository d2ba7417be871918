-- ===== src/Tests/Program.antt =====
-- VirtualMachine.cpp, UtilityFunctions.cpp and Machine.cpp: a thread closes a file.
use project.Prelude.{
  ℕ, zero, suc, ◌+◌, ◌≡◌, refl, true, false, Option, none, some, [], arith, update, All,
}
use project.Machine.Data.{find}
use project.Vm.Data.{ThreadStore}
use project.Machine.Requests
use project.Machine.Requests.{send, add_request}
use project.Vm.Run.{switched}
use project.Vm.Entry.{safe_entry_begin}
use project.Machine.Signals.{resume_signals, suspend_signals, enable_signals}
use project.Vm.Schedule.{
  schedule, are_all_lists_empty, pick, take_front, scan, switch_to_new_thread, switch_out, requeue,
}
use project.Vm.Wait.{wait_current_thread_on_io}
use project.Vm.Tcb.{set_state, set_is_waiting_on_io}
use project.Vm.Create.{new_thread_store}
use project.Api.Start.{boot}
use project.Api.Files.{vm_file_close, perform, wait_for_request}
use project.Api.Call.{suspend}
use project.System.Defs.{
  user, System, kernel, Context, fresh, exec, file_close, call, switch, saved, resume,
}
use project.Link.Defs.{notify, start, notify}
use project.Link.Defs as Links
use project.Link.Count.{wants_reply, caller_of, asked, waits, answered_by}
use project.Spec.Kept.{io}
use project.Program.Defs.{
  usr2, with_store, beside, Program, store_of, moved, as_link, runs, Reach, here, next, begin,
}
use project.Program.Traced.{Reach-traced}
use project.Program.Awaited.{Reach-awaited}
use project.Program.Answered.{Served, Reach-answered}
use project.Tests.Store.{store, threads, locks, machine}
use project.Tests.Machine.{counting}
use project.Tests.Link.{unused}

abbrev contexts : ℕ → Context
contexts t = fresh

abbrev or_store : Option ThreadStore → ThreadStore
or_store none = store
or_store (some s) = s

-- The main thread closes the descriptor 3, and waits.
abbrev closing : System
closing = kernel (exec (file_close 3) store) contexts

abbrev asked_store : ThreadStore
asked_store = or_store (store_of closing)

abbrev asked_program : Program ℕ
asked_program = moved (begin store 0) closing

asked_program-reached : Reach counting (begin store 0) asked_program
unfolding begin
asked_program-reached =
    next here (runs (call (file_close 3) store contexts refl tt) (omega arith) refl (omega arith))

asked_store-stands : (store_of closing ≡ some asked_store) × (io asked_store 0 ≡ true)
unfolding exec vm_file_close perform wait_for_request Requests.file_close suspend suspend_signals
    wait_current_thread_on_io schedule are_all_lists_empty set_state set_is_waiting_on_io pick
    take_front scan switch_to_new_thread switch_out requeue
asked_store-stands = (refl, refl)

store-idle : (t : ℕ) → io store t ≡ false
store-idle zero = refl
store-idle (suc zero) = refl
store-idle (suc (suc t)) = refl

Reach-traced_example : Links.Reach counting (start store 0) (as_link asked_store asked_program)
Reach-traced_example =
    Reach-traced counting store 0 unused asked_program-reached asked_store asked_store-stands.0

Reach-awaited_example :
    (id : ℕ) × (caller_of (find id asked_store.machine.pending) ≡ some 0)
    × (asked id asked_store.machine.requests
          + waits id asked_program.helper.server.pending_reads
          + answered_by id asked_program.replies
        ≡ 1)
Reach-awaited_example =
    Reach-awaited counting store 0 unused store-idle asked_program-reached asked_store
      asked_store-stands.0 0 asked_store-stands.1

abbrev new_store : ThreadStore
new_store = new_thread_store threads locks 0 true machine

abbrev booted : ThreadStore
booted = or_store (boot 0 100 new_store)

-- The signal is sent, and the idle thread starts.
abbrev told_program : Program ℕ
told_program = record {
  system = with_store asked_store closing;
  owes_signal = false;
  helper = record asked_program.helper { signal = true };
  replies = [];
  reply_signal = false;
}

abbrev switch_of : System → System
switch_of (kernel (switched t s k) cs) =
    resume (update cs t (saved k) s.current_thread) s (update cs t (saved k))
switch_of a = a

abbrev idling : System
idling = switch_of (with_store asked_store closing)

abbrev idle_program : Program ℕ
idle_program = moved told_program idling

abbrev contexts_of : System → ℕ → Context
contexts_of (user s cs) = cs
contexts_of (kernel r cs) = cs

abbrev idle_store : ThreadStore
idle_store = or_store (store_of idling)

idle_program-reached :
    Reach counting (begin store 0) idle_program
    × (idle_program.system ≡ user idle_store (contexts_of idling))
    × (idle_store.machine.mask usr2 ≡ false)
    × All (λ q. wants_reply q ≡ true) idle_store.machine.requests
unfolding begin exec vm_file_close perform wait_for_request Requests.file_close suspend
    suspend_signals wait_current_thread_on_io schedule are_all_lists_empty set_state
    set_is_waiting_on_io pick take_front scan switch_to_new_thread switch_out requeue
    safe_entry_begin enable_signals send add_request resume_signals start
idle_program-reached = (
  next (next asked_program-reached (beside asked_store refl (notify refl) tt))
      (runs (switch _ _ _ _) tt refl (omega arith)),
  refl,
  refl,
  (refl, tt),
)

Reach-answered_example :
    (p' : Program ℕ) × Served counting idle_program p'
    × ((s' : ThreadStore) × (p'.system ≡ user s' (contexts_of idling))
        × ((t : ℕ) → io s' t ≡ false))
unfolding begin start
Reach-answered_example =
    Reach-answered counting store 0 idle_store (contexts_of idling) unused store-idle
      idle_program-reached.0 idle_program-reached.1 idle_program-reached.2 (λ e. cc) refl
      idle_program-reached.3

-- ===== src/Spec/Answered.antt =====
-- VirtualMachine.cpp: the calls with what they looked up.
use project.Prelude.{
  ℕ, refl, subst, inl, inr, Bool, true, false, not, Option, none, some, List, Bool-cases,
}
use project.Machine.Signals.{suspend_signals}
use project.Vm.Data.{
  ThreadStore, Entry, is_dead, invalid_parameter, invalid_id, invalid_state, thread_id_invalid,
}
use project.Vm.Run.{Run}
use project.Vm.Locks.{lock, release}
use project.Vm.Threads.{find_thread_by_id, activate_dead_thread, delete_dead_thread, terminate}
use project.Vm.Create.{new_tcb, insert_thread}
use project.Api.Call.{Reply, suspend, is_some, is_thread}
use project.Api.Mutexes as Mutexes
use project.Api.Mutexes.{
  vm_mutex_create, vm_mutex_delete, vm_mutex_query, vm_mutex_acquire, vm_mutex_release, owner_reply,
  query_found, check_owner, acquire_found, release_found,
}
use project.Api.Threads as Threads
use project.Api.Threads.{
  vm_thread_create, vm_thread_delete, vm_thread_activate, vm_thread_terminate, vm_thread_id,
  vm_thread_state, vm_thread_sleep, terminate_found, state_found, activate_found, created,
  create_with,
}
use project.Api.Files.{read_with, write_with, open_with}
use project.System.Defs.{mutex_release, thread_create, file_open}
use project.Spec.Refused.{
  demand, on_mutex, on_thread, both, release_refusal, refusal, behind, Ends, IsGranted, Result,
  Ends-bind,
}
use project.Spec.Answers.{
  Answers, blocked, find_thread_by_id-blocked, granted, refused, then_granted, demanded,
  demanded_not, performed, check_owner-granted,
}

module _ (s : ThreadStore) where
  -- A call that looks a thread up looks it up behind the block of the signals.
  pub looked_up :
      (F : Option ℕ → Option ℕ) (id : ℕ) (r : Run Reply)
      → Answers (F (find_thread_by_id id (blocked s))) s r
      → Answers (F (find_thread_by_id id s)) s r
  looked_up F id r h = subst (λ o. Answers (F o) s r) (find_thread_by_id-blocked id s) h

  pub thread_delete-Answers :
      (o : Option ℕ)
      → Answers
          (on_thread o λ t. demand (is_dead (s.tcb t).state) invalid_state none)
          s
          (Threads.delete_found s.machine.mask o (blocked s))
  unfolding blocked suspend suspend_signals
  thread_delete-Answers none = refused s invalid_id
  thread_delete-Answers (some t) =
      demanded (is_dead (s.tcb t).state) invalid_state s none _
        (then_granted _ (delete_dead_thread t (blocked s)))

  pub thread_activate-Answers :
      (o : Option ℕ)
      → Answers
          (on_thread o λ t. demand (is_dead (s.tcb t).state) invalid_state none)
          s
          (activate_found s.machine.mask o (blocked s))
  unfolding blocked suspend suspend_signals
  thread_activate-Answers none = refused s invalid_id
  thread_activate-Answers (some t) =
      demanded (is_dead (s.tcb t).state) invalid_state s none _
        (then_granted _ (activate_dead_thread t (blocked s)))

  pub thread_terminate-Answers :
      (fuel : ℕ) (o : Option ℕ)
      → Answers
          (on_thread o λ t. demand (not (is_dead (s.tcb t).state)) invalid_state none)
          s
          (terminate_found fuel s.machine.mask o (blocked s))
  unfolding blocked suspend suspend_signals
  thread_terminate-Answers fuel none = refused s invalid_id
  thread_terminate-Answers fuel (some t) =
      demanded_not (is_dead (s.tcb t).state) invalid_state s none _
        (then_granted _ (terminate fuel t (blocked s)))

  pub thread_state-Answers :
      (o : Option ℕ) → Answers (on_thread o λ t. none) s (state_found s.machine.mask o (blocked s))
  thread_state-Answers none = refused s invalid_id
  thread_state-Answers (some t) = granted _ _ _

  pub mutex_delete-Answers :
      (o : Option ℕ)
      → Answers
          (on_mutex o s λ m. demand (not (is_some (s.mutex m).owner)) invalid_state none)
          s
          (Mutexes.delete_found s.machine.mask o (blocked s))
  unfolding blocked suspend suspend_signals
  mutex_delete-Answers none = refused s invalid_id
  mutex_delete-Answers (some m) =
      demanded_not (s.mutex m).deleted invalid_id s _ _
        (demanded_not (is_some (s.mutex m).owner) invalid_state s none _ (granted _ _ _))

  pub mutex_query-Answers :
      (o : Option ℕ)
      → Answers
          (on_mutex o s λ m. demand (is_some (s.mutex m).owner) thread_id_invalid none)
          s
          (query_found s.machine.mask o (blocked s))
  unfolding blocked suspend suspend_signals
  mutex_query-Answers none = refused s invalid_id
  mutex_query-Answers (some m) =
      demanded_not (s.mutex m).deleted invalid_id s _ _ (owner (s.mutex m).owner)
    where
      owner :
          (o : Option ℕ)
          → Answers
              (demand (is_some o) thread_id_invalid none)
              s
              (owner_reply s.machine.mask o (blocked s))
      owner none = refused s thread_id_invalid
      owner (some o) = granted _ _ _

  pub mutex_acquire-Answers :
      (timeout : ℕ) (o : Option ℕ)
      → Answers (on_mutex o s λ m. none) s (acquire_found s.machine.mask timeout o (blocked s))
  unfolding blocked suspend suspend_signals
  mutex_acquire-Answers timeout none = refused s invalid_id
  mutex_acquire-Answers timeout (some m) = demanded_not (s.mutex m).deleted invalid_id s _ _ (
      Ends-bind IsGranted (lock m s.current_thread timeout (blocked s)) _
        (λ a u. check_owner-granted s.machine.mask m s.current_thread u))

  pub mutex_release-Answers :
      (id : ℕ) (o : Option ℕ)
      → Result
          (release_refusal o s)
          (release_found s.machine.mask o (blocked s))
          (λ status. behind (mutex_release id) status s)
  unfolding blocked suspend suspend_signals
  mutex_release-Answers id none = refused s invalid_id
  mutex_release-Answers id (some m) =
      elim (Bool-cases (is_thread s.current_thread (s.mutex m).owner)) [
        | inl e ↦ rw e (then_granted _ (release m (blocked s)))
        | inr e ↦ rw e refl
      ]

  pub thread_create-Answers :
      (entry : Option Entry) (param memsize prio : ℕ) (r : Bool)
      → Answers
          (refusal (thread_create entry param memsize prio r) s)
          s
          (create_with s.machine.mask entry param memsize prio r (blocked s))
  thread_create-Answers none param memsize prio r = refused s invalid_parameter
  thread_create-Answers (some e) param memsize prio false = refused s invalid_parameter
  thread_create-Answers (some e) param memsize prio true =
      let (u, t, id) = new_tcb e param memsize prio (blocked s) in made id (insert_thread t u)
    where
      made : (id : ℕ) (o : Option ThreadStore) → Ends IsGranted (created s.machine.mask id o)
      made id none = tt
      made id (some u) = granted _ _ u

  pub file_read-Answers :
      (fd : ℕ) (address size : Option ℕ)
      → Answers (both address size) s (read_with s.machine.mask fd address size (blocked s))
  file_read-Answers fd none size = refused s invalid_parameter
  file_read-Answers fd (some a) none = refused s invalid_parameter
  file_read-Answers fd (some a) (some n) = performed _ _ _ _

  pub file_write-Answers :
      (fd : ℕ) (address size : Option ℕ)
      → Answers (both address size) s (write_with s.machine.mask fd address size (blocked s))
  file_write-Answers fd none size = refused s invalid_parameter
  file_write-Answers fd (some a) none = refused s invalid_parameter
  file_write-Answers fd (some a) (some n) = performed _ _ _ _

  pub file_open-Answers :
      (name : Option (List ℕ)) (flags mode : ℕ) (r : Bool)
      → Answers
          (refusal (file_open name flags mode r) s)
          s
          (open_with s.machine.mask name flags mode r (blocked s))
  file_open-Answers none flags mode r = refused s invalid_parameter
  file_open-Answers (some l) flags mode false = refused s invalid_parameter
  file_open-Answers (some l) flags mode true = performed _ _ _ _

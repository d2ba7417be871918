-- ===== src/Safety/Calls/Threads.antt =====
-- VirtualMachine.cpp: the calls on threads.
use project.Prelude.{
  ℕ, ◌≤◌, inl, inr, Bool, true, false, Option, none, some, arith, ◌==◌, if◌then◌else◌, Bool-cases,
}
use project.Machine.Data.{SigSet}
use project.Vm.Data.{
  Entry, is_dead, ThreadStore, success, invalid_parameter, timeout_infinite, timeout_immediate,
}
use project.Vm.Run.{Run, M, bind}
use project.Vm.Wait.{sleep_current_thread}
use project.Vm.Threads.{find_thread_by_id}
use project.Vm.Create.{new_tcb, insert_thread}
use project.Api.Call.{Reply, answer}
use project.Api.Threads.{
  vm_thread_create, vm_thread_delete, vm_thread_activate, vm_thread_terminate, vm_thread_id,
  vm_thread_state, vm_thread_sleep, delete_found, terminate_found, state_found, activate_found,
  created, create_with,
}
use project.Safety.Inv.{ValidOwner, Ensures, Ensures-mono, Inv}
use project.Safety.Safe.{Next, Next-trans, Safe, Safe-Next}
use project.Safety.Wait.{sleep_current_thread-Safe}
use project.Safety.Threads.{
  find_thread_by_id-valid, activate_dead_thread-Safe, delete_dead_thread-Safe, terminate-Safe,
}
use project.Safety.Create.{new_tcb-Next, insert_thread-Next}
use project.Safety.Calls.Common.{Restores, answer-Safe, then_answer-Safe, suspended-Safe}

module _ (s : ThreadStore) (v : Inv s) where
  -- What a call guarantees from the moment that the signals are suspended.
  abbrev Guards : Run Reply → ThreadStore → Type 0
  Guards r u = Safe u.current_thread (Restores s.machine.mask) u r

  -- From a store with the invariant, VMThreadCreate with a priority from 1 to 3 and any other
  -- arguments reaches no null pointer and no index out of range, keeps the invariant, and restores
  -- the mask of signals.
  pub vm_thread_create-Safe :
      (entry : Option Entry) (param memsize prio : ℕ) (has_ref : Bool)
      → 1 ≤ prio
      → prio ≤ 3
      → Safe s.current_thread
          (Restores s.machine.mask)
          s
          (vm_thread_create entry param memsize prio has_ref s)
  unfolding vm_thread_create
  vm_thread_create-Safe entry param memsize prio has_ref lo hi =
      suspended-Safe s v (λ saved u. create_with saved entry param memsize prio has_ref u)
        λ u n e. body entry has_ref u n.inv
    where
      made :
          (id : ℕ) (u : ThreadStore) (o : Option ThreadStore)
          → Ensures (Next u) o
          → Guards (created s.machine.mask id o) u
      made id u none h = h
      made id u (some w) n =
          Safe-Next (Restores s.machine.mask) u w _ n (answer-Safe s.machine.mask _ _ w n.inv)

      body :
          (entry : Option Entry) (has_ref : Bool) (u : ThreadStore)
          → Inv u
          → Guards (create_with s.machine.mask entry param memsize prio has_ref u) u
      body none false u vu = answer-Safe s.machine.mask _ _ u vu
      body none true u vu = answer-Safe s.machine.mask _ _ u vu
      body (some e) false u vu = answer-Safe s.machine.mask _ _ u vu
      body (some e) true u vu =
          let n = new_tcb-Next u vu e param memsize prio lo hi in
          let r = new_tcb e param memsize prio u in
          made r.2 u (insert_thread r.1 r.0) (
            Ensures-mono (Next r.0) (Next u) (λ w. Next-trans n) (insert_thread r.1 r.0)
              (insert_thread-Next r.1 r.0 n.inv (unfold new_tcb in omega arith)))

  -- VMThreadDelete
  pub vm_thread_delete-Safe :
      (id : ℕ) → Safe s.current_thread (Restores s.machine.mask) s (vm_thread_delete id s)
  unfolding vm_thread_delete
  vm_thread_delete-Safe id =
      suspended-Safe s v (λ saved u. delete_found saved (find_thread_by_id id u) u)
        λ u n e. body (find_thread_by_id id u) u n.inv (find_thread_by_id-valid id u n.inv)
    where
      body :
          (o : Option ℕ) (u : ThreadStore)
          → Inv u
          → ValidOwner u.tcbs o
          → Guards (delete_found s.machine.mask o u) u
      body none u vu h = answer-Safe s.machine.mask _ _ u vu
      body (some t) u vu h = elim (Bool-cases (is_dead (u.tcb t).state)) [
        | inl d ↦ rw d (then_answer-Safe s.machine.mask _ _ u _ (delete_dead_thread-Safe t u vu h))
        | inr d ↦ rw d (answer-Safe s.machine.mask _ _ u vu)
      ]

  -- VMThreadActivate
  pub vm_thread_activate-Safe :
      (id : ℕ) → Safe s.current_thread (Restores s.machine.mask) s (vm_thread_activate id s)
  unfolding vm_thread_activate
  vm_thread_activate-Safe id =
      suspended-Safe s v (λ saved u. activate_found saved (find_thread_by_id id u) u)
        λ u n e. body (find_thread_by_id id u) u n.inv (find_thread_by_id-valid id u n.inv)
    where
      body :
          (o : Option ℕ) (u : ThreadStore)
          → Inv u
          → ValidOwner u.tcbs o
          → Guards (activate_found s.machine.mask o u) u
      body none u vu h = answer-Safe s.machine.mask _ _ u vu
      body (some t) u vu h = elim (Bool-cases (is_dead (u.tcb t).state)) [
        | inl d ↦
            rw d (then_answer-Safe s.machine.mask _ _ u _ (activate_dead_thread-Safe t u vu h))
        | inr d ↦ rw d (answer-Safe s.machine.mask _ _ u vu)
      ]

  -- From a store with the invariant, VMThreadTerminate of any identifier reaches no null pointer
  -- and no index out of range, with any fuel for the loop over the mutexes. The invariant holds at
  -- every switch and at the end, provided that the threads that run in between keep it and change
  -- no identifier, priority or entry function. If the call returns, it returns in the thread that
  -- made it, with the mask of signals of before.
  pub vm_thread_terminate-Safe :
      (fuel id : ℕ)
      → Safe s.current_thread (Restores s.machine.mask) s (vm_thread_terminate fuel id s)
  unfolding vm_thread_terminate
  vm_thread_terminate-Safe fuel id =
      suspended-Safe s v (λ saved u. terminate_found fuel saved (find_thread_by_id id u) u)
        λ u n e. body (find_thread_by_id id u) u n.inv (find_thread_by_id-valid id u n.inv)
    where
      body :
          (o : Option ℕ) (u : ThreadStore)
          → Inv u
          → ValidOwner u.tcbs o
          → Guards (terminate_found fuel s.machine.mask o u) u
      body none u vu h = answer-Safe s.machine.mask _ _ u vu
      body (some t) u vu h = elim (Bool-cases (is_dead (u.tcb t).state)) [
        | inl d ↦ rw d (answer-Safe s.machine.mask _ _ u vu)
        | inr d ↦ rw d (then_answer-Safe s.machine.mask _ _ u _ (terminate-Safe fuel t u vu h))
      ]

  -- VMThreadID
  pub vm_thread_id-Safe :
      (has_ref : Bool) → Safe s.current_thread (Restores s.machine.mask) s (vm_thread_id has_ref s)
  unfolding vm_thread_id
  vm_thread_id-Safe has_ref =
      suspended-Safe s v
        (λ saved u.
          if has_ref
          then answer saved success (some (u.tcb u.current_thread).thread_id) u
          else answer saved invalid_parameter none u)
        λ u n e. body has_ref u n.inv
    where
      body :
          (has_ref : Bool) (u : ThreadStore)
          → Inv u
          → Guards
              (if has_ref
                then answer s.machine.mask success (some (u.tcb u.current_thread).thread_id) u
                else answer s.machine.mask invalid_parameter none u)
              u
      body false u vu = answer-Safe s.machine.mask _ _ u vu
      body true u vu = answer-Safe s.machine.mask _ _ u vu

  -- VMThreadState
  pub vm_thread_state-Safe :
      (id : ℕ) (has_ref : Bool)
      → Safe s.current_thread (Restores s.machine.mask) s (vm_thread_state id has_ref s)
  unfolding vm_thread_state
  vm_thread_state-Safe id has_ref =
      suspended-Safe s v
        (λ saved u.
          if has_ref
          then state_found saved (find_thread_by_id id u) u
          else answer saved invalid_parameter none u)
        λ u n e. body has_ref u n.inv
    where
      found : (o : Option ℕ) (u : ThreadStore) → Inv u → Guards (state_found s.machine.mask o u) u
      found none u vu = answer-Safe s.machine.mask _ _ u vu
      found (some t) u vu = answer-Safe s.machine.mask _ _ u vu

      body :
          (has_ref : Bool) (u : ThreadStore)
          → Inv u
          → Guards
              (if has_ref
                then state_found s.machine.mask (find_thread_by_id id u) u
                else answer s.machine.mask invalid_parameter none u)
              u
      body false u vu = answer-Safe s.machine.mask _ _ u vu
      body true u vu = found (find_thread_by_id id u) u vu

  -- From a store with the invariant, VMThreadSleep of any number of ticks reaches no null pointer
  -- and no index out of range. The invariant holds at the switch and at the end, provided that the
  -- threads that run in between keep it and change no identifier, priority or entry function; the
  -- call ends in the thread that made it, with the mask of signals of before.
  pub vm_thread_sleep-Safe :
      (tick : ℕ) → Safe s.current_thread (Restores s.machine.mask) s (vm_thread_sleep tick s)
  unfolding vm_thread_sleep
  vm_thread_sleep-Safe tick = suspended-Safe s v sleeping λ u n e. body u n.inv
    where
      sleeping : SigSet → M Reply
      sleeping saved u =
          if tick == timeout_infinite
          then answer saved invalid_parameter none u
          else bind (sleep_current_thread (if tick == timeout_immediate then 0 else tick) u)
              (λ _. answer saved success none)

      body : (u : ThreadStore) → Inv u → Guards (sleeping s.machine.mask u) u
      body u vu = elim (Bool-cases (tick == timeout_infinite)) [
        | inl e ↦ rw e (answer-Safe s.machine.mask _ _ u vu)
        | inr e ↦ rw e (then_answer-Safe s.machine.mask _ _ u _ (sleep_current_thread-Safe _ u vu))
      ]

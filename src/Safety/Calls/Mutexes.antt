-- ===== src/Safety/Calls/Mutexes.antt =====
-- VirtualMachine.cpp: the calls on mutexes.
use project.Prelude.{
  ℕ, ◌≡◌, refl, subst, inl, inr, Bool, true, false, Option, none, some, arith, ◌==◌, if◌then◌else◌,
  Bool-cases,
}
use project.Machine.Data.{SigSet}
use project.Machine.Signals.{suspend_signals, resume_signals, all_signals}
use project.Vm.Data.{is_idle, ThreadStore, success, invalid_parameter, invalid_id, invalid_state}
use project.Vm.Run.{M}
use project.Vm.Locks.{lock, release}
use project.Vm.Threads.{find_mutex_by_id}
use project.Vm.Create.{new_mutex, insert_mutex}
use project.Api.Call.{Reply, suspend, answer, is_some, is_thread}
use project.Api.Mutexes.{
  vm_mutex_create, vm_mutex_delete, vm_mutex_query, vm_mutex_acquire, vm_mutex_release,
  delete_found, owner_reply, query_found, check_owner, acquire_found, release_found,
}
use project.Safety.Inv.{ValidOwner, Inv}
use project.Safety.Safe.{Next-refl, Next-trans, Safe, Any, Safe-Next, Safe-bind}
use project.Safety.Steps.{machine-Next}
use project.Safety.Locks.{lock-Safe}
use project.Safety.Release.{release-Safe}
use project.Safety.Threads.{find_mutex_by_id-valid, delete_from_vm-Next}
use project.Safety.Create.{new_mutex-Next, insert_mutex-Next}
use project.Safety.Calls.Common.{Restores, suspend-Next, answer-Safe, suspended-Safe}

create_body : Bool → Bool → SigSet → M Reply
create_body garbage has_ref saved s =
    let (s2, m) = new_mutex garbage s in
    let s3 = insert_mutex m s2 in
    if has_ref
    then answer saved success (some (s3.mutex m).id) s3
    else answer saved invalid_parameter none s

-- VMMutexCreate
pub vm_mutex_create-Safe :
    (garbage has_ref : Bool) (s : ThreadStore)
    → Inv s
    → Safe s.current_thread (Restores s.machine.mask) s (vm_mutex_create garbage has_ref s)
unfolding vm_mutex_create create_body
vm_mutex_create-Safe garbage has_ref s v =
    suspended-Safe s v (create_body garbage has_ref) λ u n e. body has_ref u n.inv
  where
    body :
        (has_ref : Bool) (u : ThreadStore)
        → Inv u
        → Safe u.current_thread
            (Restores s.machine.mask)
            u
            (create_body garbage has_ref s.machine.mask u)
    body false u v = answer-Safe s.machine.mask _ _ u v
    body true u v =
        let n = new_mutex-Next u v garbage in
        let k =
          Next-trans n
            (insert_mutex-Next _ n.inv (new_mutex garbage u).1 (unfold new_mutex in omega arith)) in
        Safe-Next (Restores s.machine.mask) u _ _ k (answer-Safe s.machine.mask _ _ _ k.inv)

-- VMMutexDelete
pub vm_mutex_delete-Safe :
    (id : ℕ) (s : ThreadStore)
    → Inv s
    → Safe s.current_thread (Restores s.machine.mask) s (vm_mutex_delete id s)
unfolding vm_mutex_delete
vm_mutex_delete-Safe id s v =
    suspended-Safe s v (λ saved u. delete_found saved (find_mutex_by_id id u) u)
      λ u n e. body (find_mutex_by_id id u) u n.inv (find_mutex_by_id-valid id u n.inv)
  where
    body :
        (o : Option ℕ) (u : ThreadStore)
        → Inv u
        → ValidOwner u.mutexes o
        → Safe u.current_thread (Restores s.machine.mask) u (delete_found s.machine.mask o u)
    body none u v h = answer-Safe s.machine.mask _ _ u v
    body (some m) u v h = elim (Bool-cases (u.mutex m).deleted) [
      | inl d ↦ rw d (answer-Safe s.machine.mask _ _ u v)
      | inr d ↦ rw d (elim (Bool-cases (is_some (u.mutex m).owner)) [
        | inl o ↦ rw o (answer-Safe s.machine.mask _ _ u v)
        | inr o ↦ rw o (
            let n = delete_from_vm-Next m u v h (ground arith) in
            Safe-Next (Restores s.machine.mask) u _ _ n (answer-Safe s.machine.mask _ _ _ n.inv))
      ])
    ]

-- VMMutexQuery
pub vm_mutex_query-Safe :
    (id : ℕ) (has_ref : Bool) (s : ThreadStore)
    → Inv s
    → Safe s.current_thread (Restores s.machine.mask) s (vm_mutex_query id has_ref s)
unfolding vm_mutex_query
vm_mutex_query-Safe id has_ref s v =
    suspended-Safe s v
      (λ saved u.
        if has_ref
        then query_found saved (find_mutex_by_id id u) u
        else answer saved invalid_parameter none u)
      λ u n e. body has_ref u n.inv
  where
    owned :
        (o : Option ℕ) (u : ThreadStore)
        → Inv u
        → Safe u.current_thread (Restores s.machine.mask) u (owner_reply s.machine.mask o u)
    owned none u v = answer-Safe s.machine.mask _ _ u v
    owned (some o) u v = answer-Safe s.machine.mask _ _ u v

    found :
        (o : Option ℕ) (u : ThreadStore)
        → Inv u
        → Safe u.current_thread (Restores s.machine.mask) u (query_found s.machine.mask o u)
    found none u v = answer-Safe s.machine.mask _ _ u v
    found (some m) u v = elim (Bool-cases (u.mutex m).deleted) [
      | inl d ↦ rw d (answer-Safe s.machine.mask _ _ u v)
      | inr d ↦ rw d (owned (u.mutex m).owner u v)
    ]

    body :
        (has_ref : Bool) (u : ThreadStore)
        → Inv u
        → Safe u.current_thread (Restores s.machine.mask) u (
            if has_ref
            then query_found s.machine.mask (find_mutex_by_id id u) u
            else answer s.machine.mask invalid_parameter none u)
    body false u v = answer-Safe s.machine.mask _ _ u v
    body true u v = found (find_mutex_by_id id u) u v

-- From a store with the invariant, VMMutexAcquire by a thread that is not idle, with any
-- identifier and timeout, reaches no null pointer and no index out of range. The invariant holds
-- at every switch and at the end, provided that the threads that run in between keep it and change
-- no identifier, priority or entry function; the call ends in the thread that made it, with the
-- mask of signals of before.
pub vm_mutex_acquire-Safe :
    (id timeout : ℕ) (s : ThreadStore)
    → Inv s
    → is_idle (s.tcb s.current_thread).entry_function ≡ false
    → Safe s.current_thread (Restores s.machine.mask) s (vm_mutex_acquire id timeout s)
unfolding vm_mutex_acquire
vm_mutex_acquire-Safe id timeout s v hi =
    suspended-Safe s v (λ saved u. acquire_found saved timeout (find_mutex_by_id id u) u)
      λ u n e.
        body (find_mutex_by_id id u) u n.inv (find_mutex_by_id-valid id u n.inv)
          (rw (e, n.current) hi)
  where
    checked :
        (m c : ℕ) (u : ThreadStore)
        → Inv u
        → Safe u.current_thread (Restores s.machine.mask) u (check_owner s.machine.mask m c u)
    checked m c u v =
        unfold check_owner in
        elim (Bool-cases (is_thread c (u.mutex m).owner)) [
          | inl e ↦ rw e (answer-Safe s.machine.mask _ _ u v)
          | inr e ↦ rw e (answer-Safe s.machine.mask _ _ u v)
        ]

    body :
        (o : Option ℕ) (u : ThreadStore)
        → Inv u
        → ValidOwner u.mutexes o
        → is_idle (u.tcb u.current_thread).entry_function ≡ false
        → Safe u.current_thread
            (Restores s.machine.mask)
            u
            (acquire_found s.machine.mask timeout o u)
    body none u v h i = answer-Safe s.machine.mask _ _ u v
    body (some m) u v h i = elim (Bool-cases (u.mutex m).deleted) [
      | inl d ↦ rw d (answer-Safe s.machine.mask _ _ u v)
      | inr d ↦ rw d (
          Safe-bind u.current_thread Any (Restores s.machine.mask) u
            (lock m u.current_thread timeout u) _ (lock-Safe m timeout u v h i)
            λ _ w vw g c _.
              subst
                (λ d.
                  Safe d (Restores s.machine.mask) w
                    (check_owner s.machine.mask m u.current_thread w))
                c (checked m u.current_thread w vw))
    ]

-- The mask after VMMutexRelease: the refusal of a thread that does not hold the mutex leaves every
-- signal blocked.
abbrev pub Releases : SigSet → Reply → ThreadStore → Type 0
Releases mask r s =
    if r.status == invalid_state then s.machine.mask ≡ all_signals else s.machine.mask ≡ mask

release_body : ℕ → SigSet → M Reply
release_body id saved s = release_found saved (find_mutex_by_id id s) s

-- From a store with the invariant, VMMutexRelease with any identifier reaches no null pointer and
-- no index out of range. The invariant holds at every switch and at the end, provided that the
-- threads that run in between keep it and change no identifier, priority or entry function; the
-- call ends in the thread that made it. It restores the mask of signals, except where it answers
-- that the state is invalid: then every signal stays blocked.
pub vm_mutex_release-Safe :
    (id : ℕ) (s : ThreadStore)
    → Inv s
    → Safe s.current_thread (Releases s.machine.mask) s (vm_mutex_release id s)
unfolding vm_mutex_release suspend suspend_signals
vm_mutex_release-Safe id s v =
    let n = suspend-Next s v in
    Safe-Next (Releases s.machine.mask) s (suspend s).0 _ n (
      body (find_mutex_by_id id (suspend s).0) (suspend s).0 n.inv
        (find_mutex_by_id-valid id (suspend s).0 n.inv) refl)
  where
    restored :
        (status : ℕ) (u : ThreadStore)
        → Inv u
        → (status == invalid_state) ≡ false
        → Safe u.current_thread (Releases s.machine.mask) u (answer s.machine.mask status none u)
    restored status u vu e =
        unfold answer resume_signals in
        let n = machine-Next u vu (record u.machine { mask = s.machine.mask }) in
        (n.inv, n.grows, n.current, rw e refl)

    body :
        (o : Option ℕ) (u : ThreadStore)
        → Inv u
        → ValidOwner u.mutexes o
        → u.machine.mask ≡ all_signals
        → Safe u.current_thread (Releases s.machine.mask) u (release_found s.machine.mask o u)
    body none u v h b = restored invalid_id u v refl
    body (some m) u v h b = elim (Bool-cases (is_thread u.current_thread (u.mutex m).owner)) [
      | inl e ↦ rw e (
          Safe-bind u.current_thread Any (Releases s.machine.mask) u (release m u) _
            (release-Safe m u v h (λ k. ground arith))
            λ _ w vw g c _.
              subst (λ d. Safe d (Releases s.machine.mask) w (answer s.machine.mask success none w))
                c (restored success w vw refl))
      | inr e ↦ rw e (let k = Next-refl u v in (v, k.grows, refl, b))
    ]

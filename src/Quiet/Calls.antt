-- ===== src/Quiet/Calls.antt =====
-- VirtualMachine.cpp: the calls that make no request.
use project.Prelude.{
  ℕ, ◌≡◌, refl, Bool, true, false, Option, none, some, ◌==◌, if◌then◌else◌, update-cases,
}
use project.Machine.Data.{SigSet}
use project.Vm.Data.{Entry, is_dead, ThreadStore, timeout_infinite, timeout_immediate}
use project.Vm.Wait.{sleep_current_thread}
use project.Vm.Locks.{lock, release, delete_from_vm}
use project.Vm.Threads.{
  find_mutex_by_id, find_thread_by_id, activate_dead_thread, delete_dead_thread, terminate,
}
use project.Vm.Create.{new_tcb, new_mutex, insert_mutex}
use project.Api.Call.{suspend, is_some, is_thread}
use project.Api.Mutexes as Mutexes
use project.Api.Mutexes.{
  vm_mutex_create, vm_mutex_delete, vm_mutex_query, vm_mutex_acquire, vm_mutex_release, owner_reply,
  query_found, check_owner, acquire_found, release_found,
}
use project.Api.Threads as Threads
use project.Api.Threads.{
  vm_thread_create, vm_thread_delete, vm_thread_activate, vm_thread_terminate, vm_thread_id,
  vm_thread_state, vm_thread_sleep, terminate_found, state_found, activate_found, created,
  create_with,
}
use project.Spec.Run.{Maybe}
use project.Quiet.Talk.{
  choose-Stills, Still, Still-of, Stills, Stills-bind, Stills-after, Stills-Tame, answer-Stills,
  then_answer-Stills, suspended-Stills, Still-trans,
}
use project.Quiet.Schedule.{sleep_current_thread-Tame}
use project.Quiet.Locks.{lock-Tame, release-Tame, delete_from_vm-view}
use project.Quiet.Threads.{
  SameView, activate_dead_thread-Tame, delete_dead_thread-Tame, terminate-Tame, insert_thread-view,
}

pub vm_mutex_create-Stills : (g r : Bool) (s : ThreadStore) → Stills s (vm_mutex_create g r s)
unfolding vm_mutex_create new_mutex insert_mutex
vm_mutex_create-Stills g r s = suspended-Stills s _ (
    choose-Stills (suspend s).0 r _ _
      (Stills-after (suspend s).0 _ _ (Still-of _ _ refl) (answer-Stills _ _ _ _))
      (answer-Stills _ _ _ _))

pub vm_mutex_delete-Stills : (id : ℕ) (s : ThreadStore) → Stills s (vm_mutex_delete id s)
unfolding vm_mutex_delete
vm_mutex_delete-Stills id s =
    suspended-Stills s _ (from (suspend s).0 (find_mutex_by_id id (suspend s).0))
  where
    from : (u : ThreadStore) (o : Option ℕ) → Stills u (Mutexes.delete_found (suspend s).1 o u)
    from u none = answer-Stills _ _ _ u
    from u (some m) = choose-Stills u (u.mutex m).deleted _ _ (answer-Stills _ _ _ u) (
        choose-Stills u (is_some (u.mutex m).owner) _ _ (answer-Stills _ _ _ u) (
          Stills-after u (delete_from_vm m u) _
            (Still-of u (delete_from_vm m u) (delete_from_vm-view m u)) (answer-Stills _ _ _ _)))

pub vm_mutex_query-Stills : (id : ℕ) (r : Bool) (s : ThreadStore) → Stills s (vm_mutex_query id r s)
unfolding vm_mutex_query
vm_mutex_query-Stills id r s = suspended-Stills s _ (
    choose-Stills (suspend s).0 r _ _ (from (suspend s).0 (find_mutex_by_id id (suspend s).0))
      (answer-Stills _ _ _ _))
  where
    owner : (u : ThreadStore) (o : Option ℕ) → Stills u (owner_reply (suspend s).1 o u)
    owner u none = answer-Stills _ _ _ u
    owner u (some o) = answer-Stills _ _ _ u

    from : (u : ThreadStore) (o : Option ℕ) → Stills u (query_found (suspend s).1 o u)
    from u none = answer-Stills _ _ _ u
    from u (some m) =
        choose-Stills u (u.mutex m).deleted _ _ (answer-Stills _ _ _ u) (owner u (u.mutex m).owner)

check_owner-Stills :
    (saved : SigSet) (m c : ℕ) (u : ThreadStore) → Stills u (check_owner saved m c u)
unfolding check_owner
check_owner-Stills saved m c u =
    choose-Stills u (is_thread c (u.mutex m).owner) _ _ (answer-Stills _ _ _ u)
      (answer-Stills _ _ _ u)

pub vm_mutex_acquire-Stills :
    (id timeout : ℕ) (s : ThreadStore) → Stills s (vm_mutex_acquire id timeout s)
unfolding vm_mutex_acquire
vm_mutex_acquire-Stills id timeout s =
    suspended-Stills s _ (from (suspend s).0 (find_mutex_by_id id (suspend s).0))
  where
    from : (u : ThreadStore) (o : Option ℕ) → Stills u (acquire_found (suspend s).1 timeout o u)
    from u none = answer-Stills _ _ _ u
    from u (some m) = choose-Stills u (u.mutex m).deleted _ _ (answer-Stills _ _ _ u) (
        Stills-bind u (lock m u.current_thread timeout u) _
          (Stills-Tame u _ (lock-Tame m u.current_thread timeout u))
          (λ a w. check_owner-Stills (suspend s).1 m u.current_thread w))

pub vm_mutex_release-Stills : (id : ℕ) (s : ThreadStore) → Stills s (vm_mutex_release id s)
unfolding vm_mutex_release
vm_mutex_release-Stills id s =
    suspended-Stills s _ (from (suspend s).0 (find_mutex_by_id id (suspend s).0))
  where
    from : (u : ThreadStore) (o : Option ℕ) → Stills u (release_found (suspend s).1 o u)
    from u none = answer-Stills _ _ _ u
    from u (some m) =
        choose-Stills u (is_thread u.current_thread (u.mutex m).owner) _ _
          (then_answer-Stills _ _ _ u (release m u) (release-Tame m u)) (Still-of u u refl)

pub vm_thread_create-Stills :
    (entry : Option Entry) (param memsize prio : ℕ) (r : Bool) (s : ThreadStore)
    → Stills s (vm_thread_create entry param memsize prio r s)
unfolding vm_thread_create new_tcb
vm_thread_create-Stills entry param memsize prio r s =
    suspended-Stills s _ (from entry r (suspend s).0)
  where
    made :
        (u w : ThreadStore) (id : ℕ) (o : Option ThreadStore)
        → Still u w
        → Maybe (SameView w) o
        → Stills u (created (suspend s).1 id o)
    made u w id none e h = tt
    made u w id (some x) e h =
        Stills-after u x _ (Still-trans e (Still-of w x h)) (answer-Stills _ _ _ x)

    new : (e : Entry) (u : ThreadStore) → Still u (new_tcb e param memsize prio u).0
    new e u = record {
      quiet = record { pending = refl; requests = refl; request_id = refl; initialized = refl };
      calm = λ t.
          update-cases (λ b. b.waiting_on_io ≡ true → (u.tcb t).waiting_on_io ≡ true) u.tcb u.tcbs t
            _ (λ p h. cc) (λ h. h);
    }

    from :
        (entry : Option Entry) (r : Bool) (u : ThreadStore)
        → Stills u (create_with (suspend s).1 entry param memsize prio r u)
    from none r u = answer-Stills _ _ _ u
    from (some e) false u = answer-Stills _ _ _ u
    from (some e) true u =
        made u (new_tcb e param memsize prio u).0 _ _ (new e u)
          (insert_thread-view u.tcbs (new_tcb e param memsize prio u).0)

pub vm_thread_delete-Stills : (id : ℕ) (s : ThreadStore) → Stills s (vm_thread_delete id s)
unfolding vm_thread_delete
vm_thread_delete-Stills id s =
    suspended-Stills s _ (from (suspend s).0 (find_thread_by_id id (suspend s).0))
  where
    from : (u : ThreadStore) (o : Option ℕ) → Stills u (Threads.delete_found (suspend s).1 o u)
    from u none = answer-Stills _ _ _ u
    from u (some t) =
        choose-Stills u (is_dead (u.tcb t).state) _ _
          (then_answer-Stills _ _ _ u (delete_dead_thread t u) (delete_dead_thread-Tame t u))
          (answer-Stills _ _ _ u)

pub vm_thread_terminate-Stills :
    (fuel id : ℕ) (s : ThreadStore) → Stills s (vm_thread_terminate fuel id s)
unfolding vm_thread_terminate
vm_thread_terminate-Stills fuel id s =
    suspended-Stills s _ (from (suspend s).0 (find_thread_by_id id (suspend s).0))
  where
    from : (u : ThreadStore) (o : Option ℕ) → Stills u (terminate_found fuel (suspend s).1 o u)
    from u none = answer-Stills _ _ _ u
    from u (some t) =
        choose-Stills u (is_dead (u.tcb t).state) _ _ (answer-Stills _ _ _ u)
          (then_answer-Stills _ _ _ u (terminate fuel t u) (terminate-Tame fuel t u))

pub vm_thread_state-Stills :
    (id : ℕ) (r : Bool) (s : ThreadStore) → Stills s (vm_thread_state id r s)
unfolding vm_thread_state
vm_thread_state-Stills id r s = suspended-Stills s _ (
    choose-Stills (suspend s).0 r _ _ (from (suspend s).0 (find_thread_by_id id (suspend s).0))
      (answer-Stills _ _ _ _))
  where
    from : (u : ThreadStore) (o : Option ℕ) → Stills u (state_found (suspend s).1 o u)
    from u none = answer-Stills _ _ _ u
    from u (some t) = answer-Stills _ _ _ u

pub vm_thread_activate-Stills : (id : ℕ) (s : ThreadStore) → Stills s (vm_thread_activate id s)
unfolding vm_thread_activate
vm_thread_activate-Stills id s =
    suspended-Stills s _ (from (suspend s).0 (find_thread_by_id id (suspend s).0))
  where
    from : (u : ThreadStore) (o : Option ℕ) → Stills u (activate_found (suspend s).1 o u)
    from u none = answer-Stills _ _ _ u
    from u (some t) =
        choose-Stills u (is_dead (u.tcb t).state) _ _
          (then_answer-Stills _ _ _ u (activate_dead_thread t u) (activate_dead_thread-Tame t u))
          (answer-Stills _ _ _ u)

pub vm_thread_id-Stills : (r : Bool) (s : ThreadStore) → Stills s (vm_thread_id r s)
unfolding vm_thread_id
vm_thread_id-Stills r s =
    suspended-Stills s _
      (choose-Stills (suspend s).0 r _ _ (answer-Stills _ _ _ _) (answer-Stills _ _ _ _))

pub vm_thread_sleep-Stills : (tick : ℕ) (s : ThreadStore) → Stills s (vm_thread_sleep tick s)
unfolding vm_thread_sleep
vm_thread_sleep-Stills tick s = suspended-Stills s _ (
    choose-Stills (suspend s).0 (tick == timeout_infinite) _ _ (answer-Stills _ _ _ _) (
      then_answer-Stills _ _ _ (suspend s).0
        (sleep_current_thread (if tick == timeout_immediate then 0 else tick) (suspend s).0)
        (sleep_current_thread-Tame _ (suspend s).0)))

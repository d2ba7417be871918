-- ===== src/Quiet/Locks.antt =====
-- UtilityFunctions.cpp: the methods of Mutex leave the machine alone.
use project.Prelude.{
  ℕ, zero, suc, ◌≡◌, refl, ◌∙◌, inl, inr, true, Option, none, some, List, [], ◌∷◌, ltb, ◌==◌,
  if◌then◌else◌, Bool-cases, is_empty,
}
use project.Vm.Data.{MutexInfo, ThreadStore, timeout_infinite, timeout_immediate}
use project.Vm.Run.{M}
use project.Vm.Tcb.{remove_info, add_mutex, remove_mutex, write_mutexes, set_waiting_on_mutex}
use project.Vm.Locks.{
  set_owner, all_prios_empty, take_waiter, release_to, release_from, release, write_mutex,
  push_waiter, sleep_queued, with_waiter, list_index, wait_for, lock_owned, lock, forget_all,
  drain_prio, delete_from_vm, release_first, release_mutexes,
}
use project.Quiet.Run.{Tame, view, mutexes-view, Tame-from, Tame-bind}
use project.Quiet.Schedule.{hand_over-Tame, sleep_current_thread-Tame}

pub release-Tame : (m : ℕ) (s : ThreadStore) → Tame (view s) (release m s)
unfolding release remove_mutex write_mutexes set_owner
release-Tame m s = from (s.mutex m).owner
  where
    to :
        (p : ℕ) (o : Option (ℕ × (ℕ → List ℕ))) (u : ThreadStore)
        → Tame (view u) (release_to m p o u)
    to p none u = tt
    to p (some (t, lists)) u =
        hand_over-Tame p t
          (write_mutex m (record (u.mutex m) { owner = some t; priority_lists = lists }) u)

    from : (x : Option ℕ) → Tame (view s) (release_from m x s)
    from none = tt
    from (some o) = elim (Bool-cases (all_prios_empty (s.mutex m).priority_lists)) [
      | inl e ↦ rw e (same o)
      | inr e ↦ rw e (
          Tame-from s (remove_mutex o m s) _ (same o)
            (to (s.tcb o).priority (take_waiter 3 (s.mutex m).priority_lists) (remove_mutex o m s)))
    ]
      where
        same : (o : ℕ) → view (remove_mutex o m s) ≡ view s
        same o = mutexes-view o (remove_info m (s.tcb o).mutexes) s

sleep_queued-Tame :
    (m t timeout : ℕ) (s : ThreadStore) → Tame (view s) (sleep_queued timeout (push_waiter m t s))
unfolding push_waiter
sleep_queued-Tame m t timeout s = elim (Bool-cases (ltb (list_index (s.tcb t)) 3)) [
  | inl e ↦ rw e (
      sleep_current_thread-Tame (if timeout == timeout_infinite then 4294967295 else timeout)
        (write_mutex m (with_waiter (s.mutex m) (list_index (s.tcb t)) t) s))
  | inr e ↦ rw e tt
]

pub lock-Tame : (m thread timeout : ℕ) (s : ThreadStore) → Tame (view s) (lock m thread timeout s)
unfolding lock wait_for add_mutex set_waiting_on_mutex set_owner write_mutexes
lock-Tame m thread timeout s = from (s.mutex m).owner
  where
    from : (x : Option ℕ) → Tame (view s) (lock_owned m thread timeout x s)
    from none = mutexes-view s.current_thread _ (set_owner m (some s.current_thread) s)
    from (some o) = elim (Bool-cases (timeout == timeout_immediate)) [
      | inl e ↦ rw e refl
      | inr e ↦ rw e (
          Tame-from s s2 _ (mutexes-view s.current_thread _ s1 ∙ mutexes-view thread _ s)
            (sleep_queued-Tame m s.current_thread timeout s2))
    ]
      where
        s1 : ThreadStore
        s1 = set_waiting_on_mutex thread true s

        s2 : ThreadStore
        s2 = add_mutex s.current_thread m true s1

release_first-Tame :
    (t : ℕ) (infos : List MutexInfo) (rest : M (Unit {0})) (s : ThreadStore)
    → ((u : ThreadStore) → Tame (view u) (rest u))
    → Tame (view s) (release_first t infos rest s)
release_first-Tame t [] rest s h = refl
release_first-Tame t (i ∷ infos) rest s h =
    Tame-bind (view s) (release i.mutex (write_mutexes t infos s)) (λ _. rest)
      (Tame-from s (write_mutexes t infos s) _ (mutexes-view t infos s)
        (release-Tame i.mutex (write_mutexes t infos s)))
      (λ a u. h u)

pub release_mutexes-Tame : (fuel t : ℕ) (s : ThreadStore) → Tame (view s) (release_mutexes fuel t s)
unfolding release_mutexes
release_mutexes-Tame zero t s = elim (Bool-cases (is_empty (s.tcb t).mutexes)) [
  | inl e ↦ rw e refl
  | inr e ↦ rw e tt
]
release_mutexes-Tame (suc fuel) t s =
    release_first-Tame t (s.tcb t).mutexes (release_mutexes fuel t) s
      (λ u. release_mutexes-Tame fuel t u)

forget_all-view : (m : ℕ) (ts : List ℕ) (s : ThreadStore) → view (forget_all m ts s) ≡ view s
unfolding forget_all remove_mutex
forget_all-view m [] s = refl
forget_all-view m (t ∷ ts) s = forget_all-view m ts (remove_mutex t m s) ∙ mutexes-view t _ s

drain_prio-view : (m i : ℕ) (s : ThreadStore) → view (drain_prio m i s) ≡ view s
unfolding drain_prio
drain_prio-view m i s = forget_all-view m ((s.mutex m).priority_lists i) s

pub delete_from_vm-view : (m : ℕ) (s : ThreadStore) → view (delete_from_vm m s) ≡ view s
unfolding delete_from_vm
delete_from_vm-view m s =
    drain_prio-view m 2 (drain_prio m 1 (drain_prio m 0 s))
    ∙ drain_prio-view m 1 (drain_prio m 0 s)
    ∙ drain_prio-view m 0 s

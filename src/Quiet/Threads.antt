-- ===== src/Quiet/Threads.antt =====
-- UtilityFunctions.cpp: what becomes of the machine when threads are created, activated and terminated.
use project.Prelude.{
  ℕ, ◌≡◌, refl, inl, inr, true, Option, none, some, [], ◌∷◌, ◌++◌, ltb, Bool-cases,
}
use project.Vm.Data.{
  ThreadState, dead, running, ready, waiting, is_idle, priority_high, ThreadStore,
}
use project.Vm.Tcb.{set_state, set_is_deleted}
use project.Vm.Schedule.{push_ready, schedule}
use project.Vm.Wait.{contains}
use project.Vm.Locks.{release_mutexes}
use project.Vm.Threads.{
  preempt_by, activate_dead_thread, find_in, mark_deleted, delete_dead_thread, bury, terminate,
}
use project.Vm.Create.{insert_by, count_thread, insert_thread}
use project.Spec.Run.{Maybe}
use project.Spec.Kept.{Kept, Maybe-Kept, set_state-Kept, write_tcb-Kept, push_ready-Kept}
use project.Quiet.Run.{Tame, view, view-of, state-view, Tame-from, Tame-bind}
use project.Quiet.Schedule.{schedule-Tame}
use project.Quiet.Locks.{release_mutexes-Tame}

preempt_by-Tame :
    (t : ℕ) (s : ThreadStore) (o : Option ThreadStore)
    → Maybe (Kept s) o
    → Tame (view s) (preempt_by t o)
preempt_by-Tame t s none h = tt
preempt_by-Tame t s (some u) h =
    elim (Bool-cases (ltb (u.tcb u.current_thread).priority (u.tcb t).priority)) [
      | inl e ↦ rw e (Tame-from s u _ (view-of s u h) (schedule-Tame priority_high u))
      | inr e ↦ rw e (view-of s u h)
    ]

pub activate_dead_thread-Tame : (t : ℕ) (s : ThreadStore) → Tame (view s) (activate_dead_thread t s)
unfolding activate_dead_thread
activate_dead_thread-Tame t s = elim (Bool-cases (contains t s.dead_list)) [
  | inl e ↦ rw e (
      preempt_by-Tame t s (push_ready t s')
        (Maybe-Kept s s' _ (set_state-Kept t ready s) (push_ready-Kept t s')))
  | inr e ↦ rw e refl
]
  where
    s' : ThreadStore
    s' = set_state t ready s

pub delete_dead_thread-Tame : (t : ℕ) (s : ThreadStore) → Tame (view s) (delete_dead_thread t s)
unfolding delete_dead_thread set_is_deleted
delete_dead_thread-Tame t s = from (find_in (s.tcb t).thread_id s.dead_list s)
  where
    deleted-view : view (set_is_deleted t true s) ≡ view s
    deleted-view = view-of s (set_is_deleted t true s) (write_tcb-Kept t _ s refl)

    from : (o : Option ℕ) → Tame (view s) (schedule priority_high (mark_deleted t o s))
    from none = schedule-Tame priority_high s
    from (some u) =
        Tame-from s (set_is_deleted t true s) _ deleted-view
          (schedule-Tame priority_high (set_is_deleted t true s))

bury-Tame : (t : ℕ) (s : ThreadStore) → Tame (view s) (bury t s)
unfolding bury
bury-Tame t s = Tame-from s (set_state t dead s) _ (state-view t dead s) (
    schedule-Tame priority_high
      (record (set_state t dead s) { dead_list = (set_state t dead s).dead_list ++ t ∷ [] }))

pub terminate-Tame : (fuel t : ℕ) (s : ThreadStore) → Tame (view s) (terminate fuel t s)
unfolding terminate
terminate-Tame fuel t s = elim (Bool-cases (is_idle (s.tcb t).entry_function)) [
  | inl e ↦ rw e refl
  | inr e ↦ rw e (
      Tame-bind (view s) (release_mutexes fuel t s) (λ _. bury t) (release_mutexes-Tame fuel t s)
        (λ a u. bury-Tame t u))
]

abbrev pub SameView : ThreadStore → ThreadStore → Type 0
SameView s u = view u ≡ view s

pushed : (s : ThreadStore) (o : Option ThreadStore) → Maybe (Kept s) o → Maybe (SameView s) o
pushed s none h = tt
pushed s (some u) h = view-of s u h

insert_by-view : (t : ℕ) (x : ThreadState) (s : ThreadStore) → Maybe (SameView s) (insert_by t x s)
unfolding insert_by
insert_by-view t dead s = refl
insert_by-view t running s = refl
insert_by-view t ready s = pushed s (push_ready t s) (push_ready-Kept t s)
insert_by-view t waiting s =
    let s' : ThreadStore = record s { wait_list = s.wait_list ++ t ∷ [] } in
    pushed s (push_ready t s') (push_ready-Kept t s')

pub insert_thread-view : (t : ℕ) (s : ThreadStore) → Maybe (SameView s) (insert_thread t s)
unfolding insert_thread
insert_thread-view t s = go (insert_by t (s.tcb t).state s') (insert_by-view t (s.tcb t).state s')
  where
    s' : ThreadStore
    s' = record s { all_threads = s.all_threads ++ t ∷ [] }

    go : (o : Option ThreadStore) → Maybe (SameView s) o → Maybe (SameView s) (count_thread o)
    go none h = tt
    go (some u) h = h

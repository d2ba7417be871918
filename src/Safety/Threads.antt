-- ===== src/Safety/Threads.antt =====
-- UtilityFunctions.cpp: looking threads and mutexes up, activating, terminating and deleting them.
use project.Prelude.{
  ℕ, zero, suc, ◌<◌, ◌≡◌, refl, ap, subst, ◌∙◌, inl, inr, true, not, ◌&&◌, Option, none, some, List,
  [], ◌∷◌, ◌++◌, arith, ltb, ◌==◌, Bool-cases, update, get_elem?, or_else, update_same,
}
use project.Vm.Data.{dead, ready, is_idle, priority_high, Mutex, ThreadStore}
use project.Vm.Tcb.{set_state}
use project.Vm.Schedule.{push_ready}
use project.Vm.Wait.{contains}
use project.Vm.Locks.{write_mutex, release_mutexes, forget_all, drain_prio, delete_from_vm}
use project.Vm.Threads.{
  find_mutex_by_id, find_in, find_in_dead, find_thread_by_id, preempt_by, activate_dead_thread,
  mark_deleted, delete_dead_thread, bury, terminate,
}
use project.Safety.Inv.{Valid, Valid-push, ValidOwner, Ensures, Ensures-mono, Inv, IsFree}
use project.Safety.Safe.{
  Grows-refl, Next, Next-le, Next-refl, Next-trans, Safe, Any, Safe-Next, Safe-bind,
}
use project.Safety.Steps.{set_state-Next, set_is_deleted-Next, dead_list-Next, push_ready-Next}
use project.Safety.Schedule.{schedule-Safe}
use project.Safety.Release.{release_mutexes-Safe}
use project.Safety.Mutexes.{MutexInv-of, write_mutex-Next}

-- What is found is allocated.
find_in-valid :
    (n id : ℕ) (ts : List ℕ) (s : ThreadStore) → Valid n ts → ValidOwner n (find_in id ts s)
unfolding find_in
find_in-valid n id [] s h = tt
find_in-valid n id (t ∷ ts) s h = elim (Bool-cases ((s.tcb t).thread_id == id)) [
  | inl e ↦ rw (e, ValidOwner) h.0
  | inr e ↦ rw (e, ValidOwner) (find_in-valid n id ts s h.1)
]

find_in_dead-valid :
    (n id : ℕ) (ts : List ℕ) (s : ThreadStore) → Valid n ts → ValidOwner n (find_in_dead id ts s)
unfolding find_in_dead
find_in_dead-valid n id [] s h = tt
find_in_dead-valid n id (t ∷ ts) s h =
    elim (Bool-cases ((s.tcb t).thread_id == id && not (s.tcb t).deleted)) [
      | inl e ↦ rw (e, ValidOwner) h.0
      | inr e ↦ rw (e, ValidOwner) (find_in_dead-valid n id ts s h.1)
    ]

or_else-valid :
    (n : ℕ) (x y : Option ℕ) → ValidOwner n x → ValidOwner n y → ValidOwner n (or_else x y)
or_else-valid n none y h k = k
or_else-valid n (some t) y h k = h

pub find_thread_by_id-valid :
    (id : ℕ) (s : ThreadStore) → Inv s → ValidOwner s.tcbs (find_thread_by_id id s)
unfolding find_thread_by_id
find_thread_by_id-valid id s v = elim (Bool-cases ((s.tcb s.current_thread).thread_id == id)) [
  | inl e ↦ rw (e, ValidOwner) v.lists.current
  | inr e ↦
      rw (e, ValidOwner)
        (or_else-valid s.tcbs (find_in id (s.ready_lists 1) s) _
          (find_in-valid s.tcbs id _ s (v.lists.ready 1))
          (or_else-valid s.tcbs (find_in id (s.ready_lists 2) s) _
            (find_in-valid s.tcbs id _ s (v.lists.ready 2))
            (or_else-valid s.tcbs (find_in id (s.ready_lists 3) s) _
              (find_in-valid s.tcbs id _ s (v.lists.ready 3))
              (or_else-valid s.tcbs (find_in id s.wait_list s) _
                (find_in-valid s.tcbs id _ s v.lists.wait)
                (find_in_dead-valid s.tcbs id s.dead_list s v.lists.buried)))))
]

get_elem?-valid : (n : ℕ) (ms : List ℕ) (i : ℕ) → Valid n ms → ValidOwner n (get_elem? ms i)
get_elem?-valid n [] i h = tt
get_elem?-valid n (m ∷ ms) zero h = h.0
get_elem?-valid n (m ∷ ms) (suc i) h = get_elem?-valid n ms i h.1

pub find_mutex_by_id-valid :
    (id : ℕ) (s : ThreadStore) → Inv s → ValidOwner s.mutexes (find_mutex_by_id id s)
unfolding find_mutex_by_id
find_mutex_by_id-valid id s v = get_elem?-valid s.mutexes s.mutex_vector id v.lists.vector

module _ (t : ℕ) (s : ThreadStore) (v : Inv s) (h : t < s.tcbs) where
  pub activate_dead_thread-Safe : Safe s.current_thread Any s (activate_dead_thread t s)
  unfolding activate_dead_thread
  activate_dead_thread-Safe = elim (Bool-cases (contains t s.dead_list)) [
    | inl e ↦ rw e (
        let n = set_state-Next t s v ready in
        preempted (push_ready t (set_state t ready s)) (
          Ensures-mono (Next (set_state t ready s)) (Next s) (λ u. Next-trans n)
            (push_ready t (set_state t ready s)) (push_ready-Next _ n.inv t (Next-le n h))))
    | inr e ↦ rw e (v, Grows-refl s, refl, tt)
  ]
    where
      preempted :
          (o : Option ThreadStore)
          → Ensures (Next s) o
          → Safe s.current_thread Any s (preempt_by t o)
      preempted none e = e
      preempted (some u) n =
          elim (Bool-cases (ltb (u.tcb u.current_thread).priority (u.tcb t).priority)) [
            | inl e ↦
                rw e (Safe-Next Any s u _ n (schedule-Safe priority_high u n.inv (omega arith)))
            | inr e ↦ rw e (n.inv, n.grows, n.current, tt)
          ]

  mark_deleted-Next : (o : Option ℕ) → Next s (mark_deleted t o s)
  mark_deleted-Next none = Next-refl s v
  mark_deleted-Next (some u) = set_is_deleted-Next t s v true

  pub delete_dead_thread-Safe : Safe s.current_thread Any s (delete_dead_thread t s)
  unfolding delete_dead_thread
  delete_dead_thread-Safe =
      let n = mark_deleted-Next (find_in (s.tcb t).thread_id s.dead_list s) in
      Safe-Next Any s _ _ n (schedule-Safe priority_high _ n.inv (omega arith))

  pub bury-Safe : Safe s.current_thread Any s (bury t s)
  unfolding bury
  bury-Safe =
      let n = set_state-Next t s v dead in
      let s1 = set_state t dead s in
      let k = Next-trans n (
        dead_list-Next s1 n.inv (s1.dead_list ++ t ∷ [])
          (Valid-push s1.tcbs t _ n.inv.lists.buried (Next-le n h))) in
      Safe-Next Any s _ _ k (schedule-Safe priority_high _ k.inv (omega arith))

-- From a store with the invariant, to terminate an allocated thread reaches no null pointer and no
-- index out of range, with any fuel for the loop over its mutexes. The invariant holds at every
-- switch and at the end, provided that the threads that run in between keep it and change no
-- identifier, priority or entry function.
pub terminate-Safe :
    (fuel t : ℕ) (s : ThreadStore)
    → Inv s
    → t < s.tcbs
    → Safe s.current_thread Any s (terminate fuel t s)
unfolding terminate
terminate-Safe fuel t s v h = elim (Bool-cases (is_idle (s.tcb t).entry_function)) [
  | inl e ↦ rw e (v, Grows-refl s, refl, tt)
  | inr e ↦ rw e (
      Safe-bind s.current_thread Any Any s (release_mutexes fuel t s) _
        (release_mutexes-Safe fuel t s v h)
        λ _ u vu g c _.
          subst (λ d. Safe d Any u (bury t u)) c (bury-Safe t u vu (omega (arith, h, g.threads))))
]

-- A list that is empty is drained in no step.
drained : (m i : ℕ) (s : ThreadStore) → (s.mutex m).priority_lists i ≡ [] → drain_prio m i s ≡ s
unfolding drain_prio
drained m i s e =
    ap (λ u. write_mutex m (without u ((u.mutex m).priority_lists)) u) forgotten
    ∙ ap (λ l. write_mutex m (record (s.mutex m) { priority_lists = l }) s)
        (update_same (s.mutex m).priority_lists i [] e)
    ∙ ap (λ f. record s { mutex = f }) (update_same s.mutex m (s.mutex m) refl)
  where
    without : ThreadStore → (ℕ → List ℕ) → Mutex
    without u l = record (u.mutex m) { priority_lists = update l i [] }

    forgotten : forget_all m ((s.mutex m).priority_lists i) s ≡ s
    forgotten = unfold forget_all in rw e

-- To delete a mutex whose three priority lists are empty marks it as deleted and without an owner, and
-- changes nothing else in the store.
pub delete_from_vm-free :
    (m : ℕ) (s : ThreadStore)
    → IsFree (s.mutex m)
    → delete_from_vm m s ≡ write_mutex m (record (s.mutex m) { owner = none; deleted = true }) s
unfolding delete_from_vm
delete_from_vm-free m s (a, b, c) =
    ap (λ u. write_mutex m (record (u.mutex m) { owner = none; deleted = true }) u) drained_all
  where
    drained_all : drain_prio m 2 (drain_prio m 1 (drain_prio m 0 s)) ≡ s
    drained_all =
        ap (λ u. drain_prio m 2 (drain_prio m 1 u)) (drained m 0 s a)
        ∙ ap (drain_prio m 2) (drained m 1 s b)
        ∙ drained m 2 s c

pub delete_from_vm-Next :
    (m : ℕ) (s : ThreadStore)
    → Inv s
    → m < s.mutexes
    → (s.mutex m).owner ≡ none
    → Next s (delete_from_vm m s)
delete_from_vm-Next m s v hm e =
    let k = MutexInv-of m s v hm in
    rw (delete_from_vm-free m s (v.locks.free m hm e)) (
      write_mutex-Next m (record (s.mutex m) { owner = none; deleted = true }) s
        (record {
          listed = λ t h. ground (arith, k.listed t h);
          free = λ _. v.locks.free m hm e;
          owner = tt;
          waiters = k.waiters;
        })
        v)

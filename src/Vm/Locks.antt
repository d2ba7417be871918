-- ===== src/Vm/Locks.antt =====
-- UtilityFunctions.cpp: the methods of class Mutex, and TCB::releaseMutexes.
use project.Prelude.{
  ℕ, zero, suc, ◌+◌, ◌%◌, List, [], ◌∷◌, ◌++◌, Option, none, some, Bool, true, false, ◌==◌, ◌&&◌,
  ltb, if◌then◌else◌, update, is_empty,
}
use project.Vm.Data.{timeout_infinite, timeout_immediate, MutexInfo, Tcb, Mutex, ThreadStore}
use project.Vm.Run.{Run, done, undefined, unfinished, M, bind}
use project.Vm.Tcb.{set_state, sleep, add_mutex, remove_mutex, write_mutexes, set_waiting_on_mutex}
use project.Vm.Wait.{sleep_current_thread, schedule_thread_early, remove_from_waitlist_early}

-- A write through a Mutex*.
abbrev pub write_mutex : ℕ → Mutex → ThreadStore → ThreadStore
write_mutex m x s = record s { mutex = update s.mutex m x }

unfoldable pub set_owner : ℕ → Option ℕ → ThreadStore → ThreadStore
set_owner m o s = write_mutex m (record (s.mutex m) { owner = o }) s

unfoldable pub all_prios_empty : (ℕ → List ℕ) → Bool
all_prios_empty lists = is_empty (lists 0) && is_empty (lists 1) && is_empty (lists 2)

abbrev pub take_from :
    ℕ → (ℕ → List ℕ) → List ℕ → Option (ℕ × (ℕ → List ℕ)) → Option (ℕ × (ℕ → List ℕ))
take_from i lists [] rest = rest
take_from i lists (t ∷ ts) rest = some (t, update lists i ts)

-- The loop over the priority lists from `n - 1` down: the first thread, and the lists without it. The
-- index is unsigned: where all lists are empty it wraps and the loop reads out of range. `none` stands
-- for that; the test of `release` in front of the loop excludes it.
unfoldable pub take_waiter : ℕ → (ℕ → List ℕ) → Option (ℕ × (ℕ → List ℕ))
take_waiter zero lists = none
take_waiter (suc i) lists = take_from i lists (lists i) (take_waiter i lists)

-- The mutex goes to the thread `t`, which wakes if it is on the wait list.
unfoldable pub hand_over : ℕ → ℕ → M (Unit {0})
hand_over old_priority t s =
    let s' = set_state t (s.tcb t).state (sleep t 0 s) in
    if ltb old_priority (s'.tcb t).priority
    then schedule_thread_early t s'
    else remove_from_waitlist_early t s'

abbrev pub release_to : ℕ → ℕ → Option (ℕ × (ℕ → List ℕ)) → M (Unit {0})
release_to m old_priority none s = undefined
release_to m old_priority (some (t, lists)) s =
    hand_over old_priority t
      (write_mutex m (record (s.mutex m) { owner = some t; priority_lists = lists }) s)

abbrev pub release_from : ℕ → Option ℕ → M (Unit {0})
release_from m none s = undefined
release_from m (some o) s =
    let old_priority = (s.tcb o).priority in
    let s' = remove_mutex o m s in
    let lists = (s'.mutex m).priority_lists in
    if all_prios_empty lists
    then done tt (set_owner m none s')
    else release_to m old_priority (take_waiter 3 lists) s'

unfoldable pub release : ℕ → M (Unit {0})
release m s = release_from m (s.mutex m).owner s

-- priority - 1, unsigned
abbrev pub list_index : Tcb → ℕ
list_index b = (b.priority + 4294967295) % 4294967296

abbrev pub with_waiter : Mutex → ℕ → ℕ → Mutex
with_waiter x i t = record x {
  priority_lists = update x.priority_lists i (x.priority_lists i ++ t ∷ []);
}

-- priorityLists[priority - 1]->push_back(thread): the array has three lists.
unfoldable pub push_waiter : ℕ → ℕ → ThreadStore → Option ThreadStore
push_waiter m t s =
    let i = list_index (s.tcb t) in
    if ltb i 3 then some (write_mutex m (with_waiter (s.mutex m) i t) s) else none

abbrev pub sleep_queued : ℕ → Option ThreadStore → Run (Unit {0})
sleep_queued timeout none = undefined
sleep_queued timeout (some s) =
    sleep_current_thread (if timeout == timeout_infinite then 4294967295 else timeout) s

unfoldable pub wait_for : ℕ → ℕ → ℕ → M (Unit {0})
wait_for m thread timeout s =
    let s' = add_mutex s.current_thread m true (set_waiting_on_mutex thread true s) in
    sleep_queued timeout (push_waiter m s'.current_thread s')

abbrev pub lock_owned : ℕ → ℕ → ℕ → Option ℕ → M (Unit {0})
lock_owned m thread timeout none s =
    done tt (add_mutex s.current_thread m false (set_owner m (some s.current_thread) s))
lock_owned m thread timeout (some o) s =
    if timeout == timeout_immediate then done tt s else wait_for m thread timeout s

unfoldable pub lock : ℕ → ℕ → ℕ → M (Unit {0})
lock m thread timeout s = lock_owned m thread timeout (s.mutex m).owner s

-- Every thread of one priority list forgets the mutex.
unfoldable pub forget_all : ℕ → List ℕ → ThreadStore → ThreadStore
forget_all m [] s = s
forget_all m (t ∷ ts) s = forget_all m ts (remove_mutex t m s)

unfoldable pub drain_prio : ℕ → ℕ → ThreadStore → ThreadStore
drain_prio m i s = write_mutex m (record x { priority_lists = update x.priority_lists i [] }) s'
  where
    s' : ThreadStore
    s' = forget_all m ((s.mutex m).priority_lists i) s

    x : Mutex
    x = s'.mutex m

unfoldable pub delete_from_vm : ℕ → ThreadStore → ThreadStore
delete_from_vm m s = write_mutex m (record (s'.mutex m) { owner = none; deleted = true }) s'
  where
    s' : ThreadStore
    s' = drain_prio m 2 (drain_prio m 1 (drain_prio m 0 s))

abbrev pub release_first : ℕ → List MutexInfo → M (Unit {0}) → M (Unit {0})
release_first t [] rest s = done tt s
release_first t (i ∷ infos) rest s = bind (release i.mutex (write_mutexes t infos s)) (λ _. rest)

-- The loop of TCB::releaseMutexes with fuel: a release may switch threads, and others may run
-- before the loop goes on.
unfoldable pub release_mutexes : ℕ → ℕ → M (Unit {0})
release_mutexes zero t s = if is_empty (s.tcb t).mutexes then done tt s else unfinished
release_mutexes (suc fuel) t s = release_first t (s.tcb t).mutexes (release_mutexes fuel t) s

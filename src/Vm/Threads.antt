-- ===== src/Vm/Threads.antt =====
-- UtilityFunctions.cpp: the methods of ThreadStore that look threads up, activate, terminate and
-- delete them, and the table of mutexes.
use project.Prelude.{
  ℕ, true, not, ◌&&◌, Option, none, some, List, [], ◌∷◌, ◌++◌, ltb, ◌==◌, if◌then◌else◌, get_elem?,
  or_else,
}
use project.Vm.Data.{dead, ready, is_idle, priority_high, ThreadStore}
use project.Vm.Run.{Run, done, undefined, M, bind}
use project.Vm.Tcb.{set_state, set_is_deleted}
use project.Vm.Schedule.{push_ready, schedule}
use project.Vm.Wait.{contains}
use project.Vm.Locks.{release_mutexes}

unfoldable pub find_mutex_by_id : ℕ → ThreadStore → Option ℕ
find_mutex_by_id id s = get_elem? s.mutex_vector id

-- The first thread of a list with this identifier.
unfoldable pub find_in : ℕ → List ℕ → ThreadStore → Option ℕ
find_in id [] s = none
find_in id (t ∷ ts) s = if (s.tcb t).thread_id == id then some t else find_in id ts s

unfoldable pub find_in_dead : ℕ → List ℕ → ThreadStore → Option ℕ
find_in_dead id [] s = none
find_in_dead id (t ∷ ts) s =
    if (s.tcb t).thread_id == id && not (s.tcb t).deleted then some t else find_in_dead id ts s

-- The running thread, the ready lists without that of the idle thread, the wait list, the dead list.
unfoldable pub find_thread_by_id : ℕ → ThreadStore → Option ℕ
find_thread_by_id id s =
    if (s.tcb s.current_thread).thread_id == id
    then some s.current_thread
    else or_else (find_in id (s.ready_lists 1) s) (
        or_else (find_in id (s.ready_lists 2) s) (
          or_else (find_in id (s.ready_lists 3) s)
            (or_else (find_in id s.wait_list s) (find_in_dead id s.dead_list s))))

abbrev pub preempt_by : ℕ → Option ThreadStore → Run (Unit {0})
preempt_by t none = undefined
preempt_by t (some s) =
    if ltb (s.tcb s.current_thread).priority (s.tcb t).priority
    then schedule priority_high s
    else done tt s

unfoldable pub activate_dead_thread : ℕ → M (Unit {0})
activate_dead_thread t s =
    if contains t s.dead_list then preempt_by t (push_ready t (set_state t ready s)) else done tt s

abbrev pub mark_deleted : ℕ → Option ℕ → ThreadStore → ThreadStore
mark_deleted t none s = s
mark_deleted t (some _) s = set_is_deleted t true s

-- The thread is marked if a thread of the dead list has its identifier.
unfoldable pub delete_dead_thread : ℕ → M (Unit {0})
delete_dead_thread t s =
    schedule priority_high (mark_deleted t (find_in (s.tcb t).thread_id s.dead_list s) s)

-- What `terminate` does once the mutexes are released.
unfoldable pub bury : ℕ → M (Unit {0})
bury t s =
    let s' = set_state t dead s in
    schedule priority_high (record s' { dead_list = s'.dead_list ++ t ∷ [] })

unfoldable pub terminate : ℕ → ℕ → M (Unit {0})
terminate fuel t s =
    if is_idle (s.tcb t).entry_function
    then done tt s
    else bind (release_mutexes fuel t s) (λ _. bury t)

unfoldable pub terminate_current_thread : ℕ → M (Unit {0})
terminate_current_thread fuel s = terminate fuel s.current_thread s

-- ===== src/Vm/Schedule.antt =====
-- UtilityFunctions.cpp: ThreadStore::schedule and ThreadStore::switchToNewThread.
use project.Prelude.{
  ℕ, zero, suc, Bool, ◌&&◌, Option, none, some, List, [], ◌∷◌, ◌++◌, ltb, ◌==◌, if◌then◌else◌,
  update, is_empty, or_else,
}
use project.Vm.Data.{ThreadState, dead, running, ready, waiting, is_idle, is_running, ThreadStore}
use project.Vm.Run.{Run, done, switched, undefined, M}
use project.Vm.Tcb.{set_state}

-- readyLists[priority]->push_back(thread): the array has four lists.
unfoldable pub push_ready : ℕ → ThreadStore → Option ThreadStore
push_ready t s =
    let p = (s.tcb t).priority in
    if ltb p 4
    then some (record s { ready_lists = update s.ready_lists p (s.ready_lists p ++ t ∷ []) })
    else none

-- front(), and pop_front() unless it is the list of the idle thread.
unfoldable pub take_front : ℕ → List ℕ → ThreadStore → Option (ℕ × ThreadStore)
take_front p [] s = none
take_front p (t ∷ rest) s =
    some (t, if p == 0 then s else record s { ready_lists = update s.ready_lists p rest })

-- The loop over the priorities, from `n - 1` down, without the one that was tried. Below 0 the
-- unsigned counter wraps, and the index is out of range.
unfoldable pub scan : ℕ → ℕ → ThreadStore → Option (ℕ × ThreadStore)
scan zero priority s = none
scan (suc i) priority s =
    let rest = scan i priority s in
    if i == priority then rest else or_else (take_front i (s.ready_lists i) s) rest

-- The thread to run next, and the store without it in its ready list.
unfoldable pub pick : ℕ → ThreadStore → Option (ℕ × ThreadStore)
pick priority s =
    if ltb priority 4
    then or_else (take_front priority (s.ready_lists priority) s) (scan 4 priority s)
    else none

-- Where the thread that is switched out goes.
unfoldable pub requeue : ℕ → ThreadState → ThreadStore → Option ThreadStore
requeue t waiting s = some (record s { wait_list = s.wait_list ++ t ∷ [] })
requeue t dead s = some s
requeue t ready s = push_ready t s
requeue t running s = push_ready t (set_state t ready s)

unfoldable pub switch_out : ℕ → ThreadStore → Option ThreadStore
switch_out t s = if is_idle (s.tcb t).entry_function then some s else requeue t (s.tcb t).state s

-- The context switch from the thread `t`.
abbrev pub context_switch : ℕ → ℕ → Option ThreadStore → Run (Unit {0})
context_switch t next none = undefined
context_switch t next (some s) = switched t (record s { current_thread = next }) (λ s'. done tt s')

unfoldable pub switch_to_new_thread : ℕ → M (Unit {0})
switch_to_new_thread next s =
    context_switch s.current_thread next (switch_out s.current_thread (set_state next running s))

unfoldable pub are_all_lists_empty : ThreadStore → Bool
are_all_lists_empty s =
    is_empty (s.ready_lists 1) && is_empty (s.ready_lists 2) && is_empty (s.ready_lists 3)

abbrev pub switch_to_picked : Option (ℕ × ThreadStore) → Run (Unit {0})
switch_to_picked none = undefined
switch_to_picked (some (next, s)) = switch_to_new_thread next s

unfoldable pub schedule : ℕ → M (Unit {0})
schedule priority s =
    if are_all_lists_empty s && is_running (s.tcb s.current_thread).state
    then done tt s
    else switch_to_picked (pick priority s)

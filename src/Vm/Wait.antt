-- ===== src/Vm/Wait.antt =====
-- UtilityFunctions.cpp: the methods of ThreadStore that put threads on the wait list and take them
-- off before their time.
use mathlib.Core.Option
use project.Prelude.{
  ℕ, List, [], ◌∷◌, Option, none, some, Bool, true, false, not, ◌==◌, ◌&&◌, ◌||◌, if◌then◌else◌,
}
use project.Vm.Data.{ready, waiting, priority_high, ThreadStore}
use project.Vm.Run.{Run, done, undefined, M, finish}
use project.Vm.Tcb.{set_state, set_is_waiting_on_io, sleep}
use project.Vm.Schedule.{push_ready, schedule}

unfoldable pub sleep_current_thread : ℕ → M (Unit {0})
sleep_current_thread tick s =
    let s' = sleep s.current_thread tick s in
    if tick == 0 then schedule (s'.tcb s'.current_thread).priority s' else schedule priority_high s'

unfoldable pub wait_current_thread_on_io : M (Unit {0})
wait_current_thread_on_io s =
    schedule priority_high
      (set_state s.current_thread waiting (set_is_waiting_on_io s.current_thread true s))

unfoldable pub contains : ℕ → List ℕ → Bool
contains t [] = false
contains t (u ∷ us) = u == t || contains t us

-- The first occurrence goes.
unfoldable pub remove_first : ℕ → List ℕ → List ℕ
remove_first t [] = []
remove_first t (u ∷ us) = if u == t then us else u ∷ remove_first t us

-- The test of both loops over the wait list.
unfoldable pub is_found : ℕ → ThreadStore → Bool
is_found t s = contains t s.wait_list && not (s.tcb t).waiting_on_io

unfoldable pub take_off : ℕ → ThreadStore → ThreadStore
take_off t s = record s { wait_list = remove_first t s.wait_list }

-- The body of both loops: ready, at the end of the ready list and off the wait list.
unfoldable pub wake : ℕ → ThreadStore → Option ThreadStore
wake t s = Option.map (take_off t) (push_ready t (set_state t ready (sleep t 0 s)))

unfoldable pub remove_from_waitlist_early : ℕ → M (Unit {0})
remove_from_waitlist_early t s = if is_found t s then finish (wake t s) else done tt s

abbrev pub schedule_woken : Option ThreadStore → Run (Unit {0})
schedule_woken none = undefined
schedule_woken (some s) = schedule priority_high s

unfoldable pub schedule_thread_early : ℕ → M (Unit {0})
schedule_thread_early t s = if is_found t s then schedule_woken (wake t s) else done tt s

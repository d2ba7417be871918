-- ===== src/Safety/Wait.antt =====
-- UtilityFunctions.cpp: safety of the methods that put threads on the wait list and take them off.
use project.Prelude.{
  ℕ, ◌<◌, refl, inl, inr, true, Option, none, some, List, [], ◌∷◌, arith, ◌==◌, Bool-cases,
}
use mathlib.Core.Option
use project.Vm.Data.{ready, waiting, priority_high, ThreadStore}
use project.Vm.Run.{finish}
use project.Vm.Tcb.{set_state, sleep, set_is_waiting_on_io}
use project.Vm.Schedule.{push_ready}
use project.Vm.Wait.{
  sleep_current_thread, wait_current_thread_on_io, remove_first, is_found, take_off, wake,
  remove_from_waitlist_early, schedule_thread_early, schedule_woken,
}
use project.Safety.Inv.{Valid, Ensures, Ensures-mono, Inv}
use project.Safety.Safe.{Grows-refl, Next, Next-le, Next-trans, Safe, Any, Safe-Next}
use project.Safety.Steps.{
  set_state-Next, sleep-Next, set_is_waiting_on_io-Next, wait_list-Next, push_ready-Next,
}
use project.Safety.Schedule.{schedule-Safe}

pub sleep_current_thread-Safe :
    (tick : ℕ) (s : ThreadStore) → Inv s → Safe s.current_thread Any s (sleep_current_thread tick s)
unfolding sleep_current_thread
sleep_current_thread-Safe tick s v =
    let n = sleep-Next s.current_thread s v tick in
    let s1 = sleep s.current_thread tick s in
    elim (Bool-cases (tick == 0)) [
      | inl e ↦ rw e (
          Safe-Next Any s s1 _ n
            (schedule-Safe _ s1 n.inv (n.inv.priorities.at_most _ n.inv.lists.current)))
      | inr e ↦ rw e (Safe-Next Any s s1 _ n (schedule-Safe priority_high s1 n.inv (omega arith)))
    ]

pub wait_current_thread_on_io-Safe :
    (s : ThreadStore) → Inv s → Safe s.current_thread Any s (wait_current_thread_on_io s)
unfolding wait_current_thread_on_io
wait_current_thread_on_io-Safe s v =
    let n = set_is_waiting_on_io-Next s.current_thread s v true in
    let k =
      set_state-Next s.current_thread (set_is_waiting_on_io s.current_thread true s) n.inv
        waiting in
    Safe-Next Any s _ _ (Next-trans n k) (schedule-Safe priority_high _ k.inv (omega arith))

Valid-remove_first : (n t : ℕ) (ts : List ℕ) → Valid n ts → Valid n (remove_first t ts)
unfolding remove_first
Valid-remove_first n t [] h = tt
Valid-remove_first n t (u ∷ us) h = elim (Bool-cases (u == t)) [
  | inl e ↦ rw e h.1
  | inr e ↦ rw e (h.0, Valid-remove_first n t us h.1)
]

take_off-Next : (t : ℕ) (s : ThreadStore) → Inv s → Next s (take_off t s)
unfolding take_off
take_off-Next t s v = wait_list-Next s v _ (Valid-remove_first s.tcbs t s.wait_list v.lists.wait)

pub wake-Next : (t : ℕ) (s : ThreadStore) → Inv s → t < s.tcbs → Ensures (Next s) (wake t s)
unfolding wake
wake-Next t s v h =
    let n = sleep-Next t s v 0 in
    let k = Next-trans n (set_state-Next t (sleep t 0 s) n.inv ready) in
    off (push_ready t (set_state t ready (sleep t 0 s))) (
      Ensures-mono _ (Next s) (λ u. Next-trans k) (push_ready t (set_state t ready (sleep t 0 s)))
        (push_ready-Next _ k.inv t (Next-le k h)))
  where
    off :
        (o : Option ThreadStore) → Ensures (Next s) o → Ensures (Next s) (Option.map (take_off t) o)
    off none e = e
    off (some u) n = Next-trans n (take_off-Next t u n.inv)

module _ (t : ℕ) (s : ThreadStore) (v : Inv s) (h : t < s.tcbs) where
  pub remove_from_waitlist_early-Safe : Safe s.current_thread Any s (remove_from_waitlist_early t s)
  unfolding remove_from_waitlist_early
  remove_from_waitlist_early-Safe = elim (Bool-cases (is_found t s)) [
    | inl e ↦ rw e (finished (wake t s) (wake-Next t s v h))
    | inr e ↦ rw e (v, Grows-refl s, refl, tt)
  ]
    where
      finished :
          (o : Option ThreadStore) → Ensures (Next s) o → Safe s.current_thread Any s (finish o)
      finished none e = e
      finished (some u) n = (n.inv, n.grows, n.current, tt)

  pub schedule_thread_early-Safe : Safe s.current_thread Any s (schedule_thread_early t s)
  unfolding schedule_thread_early
  schedule_thread_early-Safe = elim (Bool-cases (is_found t s)) [
    | inl e ↦ rw e (woken (wake t s) (wake-Next t s v h))
    | inr e ↦ rw e (v, Grows-refl s, refl, tt)
  ]
    where
      woken :
          (o : Option ThreadStore)
          → Ensures (Next s) o
          → Safe s.current_thread Any s (schedule_woken o)
      woken none e = e
      woken (some u) n = Safe-Next Any s u _ n (schedule-Safe priority_high u n.inv (omega arith))

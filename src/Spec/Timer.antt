-- ===== src/Spec/Timer.antt =====
-- UtilityFunctions.cpp: what ThreadStore::timerEvent leaves alone.
use project.Prelude.{
  ℕ, ◌≡◌, refl, ap, subst, ◌∙◌, inl, inr, Bool, true, false, not, ◌&&◌, Option, none, some, List,
  [], ◌∷◌, ltb, ◌==◌, if◌then◌else◌, Bool-cases,
}
use project.Vm.Data.{ready, priority_high, ThreadStore}
use project.Vm.Tcb.{
  set_state, decrement_ticks_to_sleep, set_waiting_on_mutex, is_waiting_on_mutex, get_waiting_mutex,
}
use project.Vm.Schedule.{push_ready, schedule}
use project.Vm.Timer.{
  has_acquired, check_mutex, tick_thread, woken, then_tick, keep_if, tick_all, is_over,
  schedule_or_stop, timer_event,
}
use project.Safety.Inv.{Inv}
use project.Safety.Safe.{Any}
use project.Safety.Timer.{timer_event-Safe}
use project.Spec.Run.{At, At-Safe, Perhaps, Perhaps-mono, Maybe}
use project.Spec.Kept.{
  Kept, kept, write_tcb-Kept, write_mutexes-Kept, asleep-Kept, set_state-Kept, Maybe-Kept,
  push_ready-Kept, schedule-Kept,
}

abbrev pub MutexesKept : ThreadStore → ThreadStore → Type 0
MutexesKept s u = u.mutex ≡ s.mutex

check_mutex-Kept : (t : ℕ) (s : ThreadStore) → Kept s (check_mutex t s)
unfolding check_mutex set_waiting_on_mutex
check_mutex-Kept t s =
    elim (Bool-cases (is_waiting_on_mutex t s && has_acquired t (get_waiting_mutex t s) s)) [
      | inl e ↦ rw e (asleep-Kept t 0 (set_waiting_on_mutex t false s) ∙ write_mutexes-Kept t _ s)
      | inr e ↦ rw e refl
    ]

woken-Kept :
    (s : ThreadStore) (o : Option ThreadStore)
    → Maybe (Kept s) o
    → Maybe (λ r. Kept s r.0) (woken o)
woken-Kept s none h = tt
woken-Kept s (some u) h = h

readied-Kept :
    (t : ℕ) (s : ThreadStore) → Maybe (λ r. Kept s r.0) (woken (push_ready t (set_state t ready s)))
readied-Kept t s =
    woken-Kept s (push_ready t s1)
      (Maybe-Kept s s1 (push_ready t s1) (set_state-Kept t ready s) (push_ready-Kept t s1))
  where
    s1 : ThreadStore
    s1 = set_state t ready s

decrement-Kept : (t : ℕ) (s : ThreadStore) → Kept s (decrement_ticks_to_sleep t s)
unfolding decrement_ticks_to_sleep
decrement-Kept t s = write_tcb-Kept t _ s refl

tick_thread-Kept : (t : ℕ) (s : ThreadStore) → Maybe (λ r. Kept s r.0) (tick_thread t s)
unfolding tick_thread
tick_thread-Kept t s =
    branch (s.tcb t).waiting_on_io
      (not ((s.tcb t).ticks_to_sleep == 4294967295) && ltb 0 (s.tcb t).ticks_to_sleep)
      ((s.tcb t).ticks_to_sleep == 4294967295)
  where
    branch :
        (io counting infinite : Bool)
        → Maybe
            (λ r. Kept s r.0)
            (if io
              then some (s, true)
              else if counting
              then some (decrement_ticks_to_sleep t s, true)
              else if infinite
              then some (s, true)
              else woken (push_ready t (set_state t ready s)))
    branch true counting infinite = refl
    branch false true infinite = decrement-Kept t s
    branch false false true = refl
    branch false false false = readied-Kept t s

keep_if-Kept :
    (s : ThreadStore) (t : ℕ) (stays : Bool) (o : Option (ThreadStore × List ℕ))
    → Maybe (λ r. Kept s r.0) o
    → Maybe (λ r. Kept s r.0) (keep_if t stays o)
keep_if-Kept s t stays none h = tt
keep_if-Kept s t stays (some r) h = h

then_tick-Kept :
    (t : ℕ) (s s' : ThreadStore) (o : Option (ThreadStore × Bool))
    (f : ThreadStore → Option (ThreadStore × List ℕ))
    → Kept s s'
    → ((u : ThreadStore) → Maybe (λ r. Kept u r.0) (f u))
    → Maybe (λ r. Kept s' r.0) o
    → Maybe (λ r. Kept s r.0) (then_tick t o f)
then_tick-Kept t s s' none f e k h = tt
then_tick-Kept t s s' (some (u, stays)) f e k h =
    keep_if-Kept s t stays (f u) (subst (λ g. Maybe (λ r. kept r.0 ≡ g) (f u)) (h ∙ e) (k u))

pub tick_all-Kept : (ts : List ℕ) (s : ThreadStore) → Maybe (λ r. Kept s r.0) (tick_all ts s)
unfolding tick_all
tick_all-Kept [] s = refl
tick_all-Kept (t ∷ ts) s =
    then_tick-Kept t s (check_mutex t s) (tick_thread t (check_mutex t s)) (tick_all ts)
      (check_mutex-Kept t s) (λ u. tick_all-Kept ts u) (tick_thread-Kept t (check_mutex t s))

-- From a store with the invariant, whenever `timer_event` ends or switches threads, every mutex has the
-- owner and the queue of waiters that it had before: also a thread whose time-out ends in this event
-- is still in the queue of the mutex that it waited for.
pub timer_event-Kept : (s : ThreadStore) → Inv s → At (MutexesKept s) (timer_event s)
unfolding timer_event
timer_event-Kept s v =
    At-Safe (MutexesKept s) s.current_thread Any s (timer_event s) (timer_event-Safe s v)
      (go (tick_all s.wait_list s) (tick_all-Kept s.wait_list s))
  where
    go :
        (o : Option (ThreadStore × List ℕ))
        → Maybe (λ r. Kept s r.0) o
        → Perhaps (MutexesKept s) (schedule_or_stop o)
    go none h = tt
    go (some (u, rest)) h = elim (Bool-cases (is_over (record u { wait_list = rest }))) [
      | inl e ↦ rw e (ap (λ x. x.0) h)
      | inr e ↦ rw e (
          let u' : ThreadStore = record u { wait_list = rest } in
          Perhaps-mono (Kept u') (MutexesKept s) (schedule priority_high u')
            (λ w k. ap (λ x. x.0) (k ∙ h)) (schedule-Kept priority_high u'))
    ]

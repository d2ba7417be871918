-- ===== src/Safety/Timer.antt =====
-- UtilityFunctions.cpp: safety of the timer interrupt and of the callback of file requests.
use project.Prelude.{
  ℕ, ◌<◌, ◌∙◌, inl, inr, Bool, true, false, not, ◌&&◌, Option, none, some, List, [], ◌∷◌, arith,
  ltb, ◌==◌, Bool-cases,
}
use project.Machine.Signals.{suspend_signals, resume_signals}
use project.Machine.Requests
use project.Vm.Data.{ready, priority_high, ThreadStore}
use project.Vm.Tcb.{set_state, get_waiting_mutex, is_waiting_on_mutex}
use project.Vm.Schedule.{push_ready}
use project.Vm.Timer.{
  has_acquired, check_mutex, tick_thread, woken, then_tick, keep_if, tick_all, is_over,
  schedule_or_stop, timer_event, timer_interrupt, machine_file_io_callback,
}
use project.Safety.Inv.{Valid, Valid-le, Ensures, Ensures-mono, Inv}
use project.Safety.Safe.{Next, Next-le, Next-refl, Next-trans, Safe, Any, Safe-Next, Safe-bind}
use project.Safety.Steps.{
  set_state-Next, sleep-Next, set_file_io_result-Next, set_is_waiting_on_io-Next,
  decrement_ticks_to_sleep-Next, push_ready-Next, wait_list-Next, machine-Next, load-Next,
}
use project.Safety.Schedule.{schedule-Safe}
use project.Safety.Mutexes.{set_waiting_on_mutex-Next}

abbrev pub Kept : ThreadStore → ThreadStore × List ℕ → Type 0
Kept s r = Next s r.0 × Valid r.0.tcbs r.1

module _ (t : ℕ) (s : ThreadStore) (v : Inv s) where
  check_mutex-Next : Next s (check_mutex t s)
  unfolding check_mutex
  check_mutex-Next =
      elim (Bool-cases (is_waiting_on_mutex t s && has_acquired t (get_waiting_mutex t s) s)) [
        | inl e ↦
            rw e (
              let n = set_waiting_on_mutex-Next t s v false in
              Next-trans n (sleep-Next t _ n.inv 0))
        | inr e ↦ rw e (Next-refl s v)
      ]

  woken-Next :
      (o : Option ThreadStore)
      → Ensures (Next s) o
      → Ensures (λ (r : ThreadStore × Bool). Next s r.0) (woken o)
  woken-Next none h = h
  woken-Next (some u) h = h

  tick_thread-Next : t < s.tcbs → Ensures (λ (r : ThreadStore × Bool). Next s r.0) (tick_thread t s)
  unfolding tick_thread
  tick_thread-Next h = elim (Bool-cases (s.tcb t).waiting_on_io) [
    | inl e ↦ rw e (Next-refl s v)
    | inr e ↦
        rw e
          (elim (Bool-cases
            (not ((s.tcb t).ticks_to_sleep == 4294967295) && ltb 0 (s.tcb t).ticks_to_sleep)) [
              | inl f ↦ rw f (decrement_ticks_to_sleep-Next t s v)
              | inr f ↦ rw f (elim (Bool-cases ((s.tcb t).ticks_to_sleep == 4294967295)) [
                | inl g ↦ rw g (Next-refl s v)
                | inr g ↦ rw g (
                    let n = set_state-Next t s v ready in
                    woken-Next (push_ready t (set_state t ready s)) (
                      Ensures-mono (Next (set_state t ready s)) (Next s) (λ u. Next-trans n)
                        (push_ready t (set_state t ready s))
                        (push_ready-Next _ n.inv t (Next-le n h))))
              ])
            ])
  ]

pub tick_all-Kept :
    (ts : List ℕ) (s : ThreadStore) → Inv s → Valid s.tcbs ts → Ensures (Kept s) (tick_all ts s)
unfolding tick_all
tick_all-Kept [] s v h = (Next-refl s v, tt)
tick_all-Kept (t ∷ ts) s v h =
    let n = check_mutex-Next t s v in
    ticked (tick_thread t (check_mutex t s))
      (Ensures-mono _ (λ (r : ThreadStore × Bool). Next s r.0) (λ r. Next-trans n)
        (tick_thread t (check_mutex t s)) (tick_thread-Next t _ n.inv (Next-le n h.0)))
      (tick_all-Kept ts)
  where
    kept :
        (u : ThreadStore) (stays : Bool) (o : Option (ThreadStore × List ℕ))
        → Next s u
        → Ensures (Kept u) o
        → Ensures (Kept s) (keep_if t stays o)
    kept u stays none n k = k
    kept u true (some (w, l)) n (m, k) = (Next-trans n m, (Next-le (Next-trans n m) h.0, k))
    kept u false (some (w, l)) n (m, k) = (Next-trans n m, k)

    ticked :
        (o : Option (ThreadStore × Bool))
        → Ensures (λ (r : ThreadStore × Bool). Next s r.0) o
        → ((u : ThreadStore) → Inv u → Valid u.tcbs ts → Ensures (Kept u) (tick_all ts u))
        → Ensures (Kept s) (then_tick t o (tick_all ts))
    ticked none n rest = n
    ticked (some (u, stays)) n rest =
        kept u stays (tick_all ts u) n
          (rest u n.inv (Valid-le s.tcbs u.tcbs ts n.grows.threads h.1))

pub timer_event-Safe : (s : ThreadStore) → Inv s → Safe s.current_thread Any s (timer_event s)
unfolding timer_event
timer_event-Safe s v = go (tick_all s.wait_list s) (tick_all-Kept s.wait_list s v v.lists.wait)
  where
    go :
        (o : Option (ThreadStore × List ℕ))
        → Ensures (Kept s) o
        → Safe s.current_thread Any s (schedule_or_stop o)
    go none h = h
    go (some (u, kept)) (n, k) =
        let m = Next-trans n (wait_list-Next u n.inv kept k) in
        let u' : ThreadStore = record u { wait_list = kept } in
        elim (Bool-cases (is_over u')) [
          | inl e ↦ rw e (
              let l = Next-trans m (load-Next u' m.inv false (Requests.terminate u'.machine)) in
              (l.inv, l.grows, l.current, tt))
          | inr e ↦
              rw e (Safe-Next Any s u' _ m (schedule-Safe priority_high u' m.inv (omega arith)))
        ]

-- From a store with the invariant, the handler of the timer signal reaches no null pointer and no
-- index out of range. The invariant holds at the switch and at the end, provided that the threads
-- that run in between keep it and change no identifier, priority or entry function; the handler
-- ends in the thread that it interrupted.
pub timer_interrupt-Safe :
    (s : ThreadStore) → Inv s → Safe s.current_thread Any s (timer_interrupt s)
unfolding timer_interrupt
timer_interrupt-Safe s v =
    let n = machine-Next s v (suspend_signals s.machine).0 in
    let s1 : ThreadStore = record s { machine = (suspend_signals s.machine).0 } in
    Safe-bind s.current_thread Any Any s (timer_event s1) _
      (Safe-Next Any s s1 _ n (timer_event-Safe s1 n.inv))
      λ _ u vu g c _.
        let k = machine-Next u vu (resume_signals (suspend_signals s.machine).1 u.machine) in
        (k.inv, k.grows, k.current ∙ c, tt)

pub machine_file_io_callback-Next :
    (t result : ℕ) (s : ThreadStore) → Inv s → Next s (machine_file_io_callback t result s)
unfolding machine_file_io_callback
machine_file_io_callback-Next t result s v =
    let n = set_file_io_result-Next t s v result in
    Next-trans n (set_is_waiting_on_io-Next t _ n.inv false)

-- ===== src/Spec/Listed.antt =====
-- UtilityFunctions.cpp: the threads' lists of mutexes while the scheduler works.
use mathlib.Core.Option
use project.Prelude.{
  ℕ, zero, suc, ◌≡◌, refl, ap, ◌∙◌, inl, inr, ◌&&◌, Option, none, some, List, [], ◌∷◌, ltb, ◌==◌,
  Bool-cases, update-cases, or_else,
}
use project.Vm.Data.{
  ThreadState, dead, running, ready, waiting, Tcb, ThreadStore, priority_high, is_running, is_idle,
}
use project.Vm.Run.{Run, done, switched, undefined, unfinished, aborted, finish}
use project.Vm.Tcb.{write_tcb, set_state, sleep}
use project.Vm.Schedule.{
  push_ready, take_front, scan, pick, requeue, switch_out, context_switch, switch_to_new_thread,
  are_all_lists_empty, switch_to_picked, schedule,
}
use project.Vm.Wait.{
  is_found, take_off, wake, schedule_woken, remove_from_waitlist_early, schedule_thread_early,
}
use project.Vm.Locks.{hand_over}
use project.Spec.Run.{Maybe}

abbrev pub Same : ThreadStore → ThreadStore → Type 0
Same s u = (w : ℕ) → (u.tcb w).mutexes ≡ (s.tcb w).mutexes

-- An operation that ends at once, or as soon as its thread is switched back in.
abbrev pub Brief : ThreadStore → Run (Unit {0}) → Type 0
Brief s (done a u) = Same s u
Brief s (switched t u k) = Same s u × ((u' : ThreadStore) → k u' ≡ done tt u')
Brief s undefined = Unit
Brief s unfinished = ⊥
Brief s aborted = ⊥

Brief-trans : (s s' : ThreadStore) (r : Run (Unit {0})) → Same s s' → Brief s' r → Brief s r
Brief-trans s s' (done a u) f h = λ w. h w ∙ f w
Brief-trans s s' (switched t u k) f h = ((λ w. h.0 w ∙ f w), h.1)
Brief-trans s s' undefined f h = tt
Brief-trans s s' unfinished f h = h
Brief-trans s s' aborted f h = h

write_tcb-Same :
    (t : ℕ) (b : Tcb) (s : ThreadStore) → b.mutexes ≡ (s.tcb t).mutexes → Same s (write_tcb t b s)
write_tcb-Same t b s h w =
    update-cases (λ c. c.mutexes ≡ (s.tcb w).mutexes) s.tcb t w b
      (λ e. h ∙ ap (λ v. (s.tcb v).mutexes) e) refl

set_state-Same : (t : ℕ) (x : ThreadState) (s : ThreadStore) → Same s (set_state t x s)
unfolding set_state
set_state-Same t x s = write_tcb-Same t (record (s.tcb t) { state = x }) s refl

sleep-Same : (t k : ℕ) (s : ThreadStore) → Same s (sleep t k s)
unfolding sleep
sleep-Same t k s =
    write_tcb-Same t (record (s.tcb t) { state = waiting; ticks_to_sleep = k }) s refl

push_ready-Same : (t : ℕ) (s : ThreadStore) → Maybe (Same s) (push_ready t s)
unfolding push_ready
push_ready-Same t s = elim (Bool-cases (ltb (s.tcb t).priority 4)) [
  | inl e ↦ rw e (λ w. refl)
  | inr e ↦ rw e tt
]

take_front-Same :
    (p : ℕ) (l : List ℕ) (s : ThreadStore) → Maybe (λ r. Same s r.1) (take_front p l s)
unfolding take_front
take_front-Same p [] s = tt
take_front-Same p (t ∷ ts) s = elim (Bool-cases (p == 0)) [
  | inl e ↦ rw e (λ w. refl)
  | inr e ↦ rw e (λ w. refl)
]

or_else-Maybe :
    {A : Type 0} (P : A → Type 0) (x y : Option A) → Maybe P x → Maybe P y → Maybe P (or_else x y)
or_else-Maybe P none y h k = k
or_else-Maybe P (some a) y h k = h

scan-Same : (n p : ℕ) (s : ThreadStore) → Maybe (λ r. Same s r.1) (scan n p s)
unfolding scan
scan-Same zero p s = tt
scan-Same (suc i) p s = elim (Bool-cases (i == p)) [
  | inl e ↦ rw e (scan-Same i p s)
  | inr e ↦ rw e (
      or_else-Maybe (λ r. Same s r.1) _ _ (take_front-Same i (s.ready_lists i) s) (scan-Same i p s))
]

pick-Same : (p : ℕ) (s : ThreadStore) → Maybe (λ r. Same s r.1) (pick p s)
unfolding pick
pick-Same p s = elim (Bool-cases (ltb p 4)) [
  | inl e ↦ rw e (
      or_else-Maybe (λ r. Same s r.1) _ _ (take_front-Same p (s.ready_lists p) s) (scan-Same 4 p s))
  | inr e ↦ rw e tt
]

Maybe-trans :
    (s s' : ThreadStore) (o : Option ThreadStore) → Same s s' → Maybe (Same s') o → Maybe (Same s) o
Maybe-trans s s' none f h = tt
Maybe-trans s s' (some u) f h = λ w. h w ∙ f w

requeue-Same : (t : ℕ) (x : ThreadState) (s : ThreadStore) → Maybe (Same s) (requeue t x s)
unfolding requeue
requeue-Same t waiting s = λ w. refl
requeue-Same t dead s = λ w. refl
requeue-Same t ready s = push_ready-Same t s
requeue-Same t running s =
    Maybe-trans s (set_state t ready s) (push_ready t (set_state t ready s))
      (set_state-Same t ready s) (push_ready-Same t (set_state t ready s))

switch_out-Same : (t : ℕ) (s : ThreadStore) → Maybe (Same s) (switch_out t s)
unfolding switch_out
switch_out-Same t s = elim (Bool-cases (is_idle (s.tcb t).entry_function)) [
  | inl e ↦ rw e (λ w. refl)
  | inr e ↦ rw e (requeue-Same t (s.tcb t).state s)
]

switch_to_new_thread-Brief : (t : ℕ) (s : ThreadStore) → Brief s (switch_to_new_thread t s)
unfolding switch_to_new_thread
switch_to_new_thread-Brief t s =
    Brief-trans s s' (context_switch c t (switch_out c s')) (set_state-Same t running s)
      (go (switch_out c s') (switch_out-Same c s'))
  where
    c : ℕ
    c = s.current_thread

    s' : ThreadStore
    s' = set_state t running s

    go : (o : Option ThreadStore) → Maybe (Same s') o → Brief s' (context_switch c t o)
    go none h = tt
    go (some u) h = (h, λ u'. refl)

schedule-Brief : (p : ℕ) (s : ThreadStore) → Brief s (schedule p s)
unfolding schedule
schedule-Brief p s =
    elim (Bool-cases (are_all_lists_empty s && is_running (s.tcb s.current_thread).state)) [
      | inl e ↦ rw e (λ w. refl)
      | inr e ↦ rw e (go (pick p s) (pick-Same p s))
    ]
  where
    go : (o : Option (ℕ × ThreadStore)) → Maybe (λ r. Same s r.1) o → Brief s (switch_to_picked o)
    go none h = tt
    go (some (t, u)) h =
        Brief-trans s u (switch_to_new_thread t u) h (switch_to_new_thread-Brief t u)

wake-Same : (t : ℕ) (s : ThreadStore) → Maybe (Same s) (wake t s)
unfolding wake take_off
wake-Same t s = go (push_ready t s') (
    Maybe-trans s s' (push_ready t s')
      (λ w. set_state-Same t ready (sleep t 0 s) w ∙ sleep-Same t 0 s w) (push_ready-Same t s'))
  where
    s' : ThreadStore
    s' = set_state t ready (sleep t 0 s)

    go : (o : Option ThreadStore) → Maybe (Same s) o → Maybe (Same s) (Option.map (take_off t) o)
    go none h = tt
    go (some u) h = h

schedule_thread_early-Brief : (t : ℕ) (s : ThreadStore) → Brief s (schedule_thread_early t s)
unfolding schedule_thread_early
schedule_thread_early-Brief t s = elim (Bool-cases (is_found t s)) [
  | inl e ↦ rw e (go (wake t s) (wake-Same t s))
  | inr e ↦ rw e (λ w. refl)
]
  where
    go : (o : Option ThreadStore) → Maybe (Same s) o → Brief s (schedule_woken o)
    go none h = tt
    go (some u) h = Brief-trans s u (schedule priority_high u) h (schedule-Brief priority_high u)

remove_from_waitlist_early-Brief :
    (t : ℕ) (s : ThreadStore) → Brief s (remove_from_waitlist_early t s)
unfolding remove_from_waitlist_early
remove_from_waitlist_early-Brief t s = elim (Bool-cases (is_found t s)) [
  | inl e ↦ rw e (go (wake t s) (wake-Same t s))
  | inr e ↦ rw e (λ w. refl)
]
  where
    go : (o : Option ThreadStore) → Maybe (Same s) o → Brief s (finish o)
    go none h = tt
    go (some u) h = h

pub hand_over-Brief : (p t : ℕ) (s : ThreadStore) → Brief s (hand_over p t s)
unfolding hand_over
hand_over-Brief p t s =
    Brief-trans s s' _ (λ w. set_state-Same t (s.tcb t).state (sleep t 0 s) w ∙ sleep-Same t 0 s w)
      (elim (Bool-cases (ltb p (s'.tcb t).priority)) [
        | inl e ↦ rw e (schedule_thread_early-Brief t s')
        | inr e ↦ rw e (remove_from_waitlist_early-Brief t s')
      ])
  where
    s' : ThreadStore
    s' = set_state t (s.tcb t).state (sleep t 0 s)

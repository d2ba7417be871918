-- ===== src/Quiet/Schedule.antt =====
-- UtilityFunctions.cpp: the scheduler leaves the machine alone.
use project.Prelude.{
  ℕ, ◌≡◌, refl, sym, ap, ◌∙◌, ◌⊎◌, inl, inr, true, ◌&&◌, Option, none, some, ltb, ◌==◌, Bool-cases,
  update-cases,
}
use project.Vm.Data.{ThreadStore, waiting, is_running, priority_high}
use project.Vm.Run.{finish}
use project.Vm.Tcb.{set_state, sleep, set_is_waiting_on_io}
use project.Vm.Schedule.{
  schedule, switch_to_picked, pick, context_switch, switch_out, switch_to_new_thread,
  are_all_lists_empty,
}
use project.Vm.Wait.{
  sleep_current_thread, wait_current_thread_on_io, schedule_woken, is_found, wake,
  schedule_thread_early, remove_from_waitlist_early,
}
use project.Vm.Locks.{hand_over}
use project.Spec.Kept.{io, set_state-Kept, schedule-Kept, hand_over-Kept}
use project.Spec.Waiters.{sleep-Kept}
use project.Quiet.Run.{view, Tame, Tame-of, Returns}

context_switch-Returns : (c t : ℕ) (o : Option ThreadStore) → Returns (context_switch c t o)
context_switch-Returns c t none = tt
context_switch-Returns c t (some u) = λ w. refl

schedule-Returns : (p : ℕ) (s : ThreadStore) → Returns (schedule p s)
unfolding schedule switch_to_new_thread
schedule-Returns p s =
    elim (Bool-cases (are_all_lists_empty s && is_running (s.tcb s.current_thread).state)) [
      | inl e ↦ rw e tt
      | inr e ↦ rw e (go (pick p s))
    ]
  where
    go : (o : Option (ℕ × ThreadStore)) → Returns (switch_to_picked o)
    go none = tt
    go (some (t, u)) = context_switch-Returns u.current_thread t (switch_out u.current_thread _)

pub schedule-Tame : (p : ℕ) (s : ThreadStore) → Tame (view s) (schedule p s)
schedule-Tame p s = Tame-of s (schedule p s) (schedule-Kept p s) (schedule-Returns p s)

schedule_thread_early-Returns : (t : ℕ) (s : ThreadStore) → Returns (schedule_thread_early t s)
unfolding schedule_thread_early
schedule_thread_early-Returns t s = elim (Bool-cases (is_found t s)) [
  | inl e ↦ rw e (go (wake t s))
  | inr e ↦ rw e tt
]
  where
    go : (o : Option ThreadStore) → Returns (schedule_woken o)
    go none = tt
    go (some u) = schedule-Returns priority_high u

remove_from_waitlist_early-Returns :
    (t : ℕ) (s : ThreadStore) → Returns (remove_from_waitlist_early t s)
unfolding remove_from_waitlist_early
remove_from_waitlist_early-Returns t s = elim (Bool-cases (is_found t s)) [
  | inl e ↦ rw e (go (wake t s))
  | inr e ↦ rw e tt
]
  where
    go : (o : Option ThreadStore) → Returns (finish o)
    go none = tt
    go (some u) = tt

hand_over-Returns : (p t : ℕ) (s : ThreadStore) → Returns (hand_over p t s)
unfolding hand_over
hand_over-Returns p t s = elim (Bool-cases (ltb p (s'.tcb t).priority)) [
  | inl e ↦ rw e (schedule_thread_early-Returns t s')
  | inr e ↦ rw e (remove_from_waitlist_early-Returns t s')
]
  where
    s' : ThreadStore
    s' = set_state t (s.tcb t).state (sleep t 0 s)

pub hand_over-Tame : (p t : ℕ) (s : ThreadStore) → Tame (view s) (hand_over p t s)
hand_over-Tame p t s = Tame-of s (hand_over p t s) (hand_over-Kept p t s) (hand_over-Returns p t s)

sleep_current_thread-Returns : (tick : ℕ) (s : ThreadStore) → Returns (sleep_current_thread tick s)
unfolding sleep_current_thread
sleep_current_thread-Returns tick s = elim (Bool-cases (tick == 0)) [
  | inl e ↦ rw e (schedule-Returns _ (sleep s.current_thread tick s))
  | inr e ↦ rw e (schedule-Returns priority_high (sleep s.current_thread tick s))
]

pub sleep_current_thread-Tame :
    (tick : ℕ) (s : ThreadStore) → Tame (view s) (sleep_current_thread tick s)
sleep_current_thread-Tame tick s =
    Tame-of s (sleep_current_thread tick s) (sleep-Kept tick s)
      (sleep_current_thread-Returns tick s)

-- The store in which the current thread waits for a reply.
abbrev pub on_io : ThreadStore → ThreadStore
on_io s = set_state s.current_thread waiting (set_is_waiting_on_io s.current_thread true s)

pub on_io-io :
    (s : ThreadStore) (t : ℕ) → io (on_io s) t ≡ true → (io s t ≡ true) ⊎ (s.current_thread ≡ t)
unfolding set_is_waiting_on_io
on_io-io s t e =
    update-cases (λ b. b.waiting_on_io ≡ true → (io s t ≡ true) ⊎ (s.current_thread ≡ t)) s.tcb
      s.current_thread t (record (s.tcb s.current_thread) { waiting_on_io = true }) (λ p h. inr p)
      (λ h. inl h) (sym (ap (λ k. k.2 t) (set_state-Kept s.current_thread waiting s1)) ∙ e)
  where
    s1 : ThreadStore
    s1 = set_is_waiting_on_io s.current_thread true s

pub on_io-machine : (s : ThreadStore) → (on_io s).machine ≡ s.machine
unfolding set_state set_is_waiting_on_io
on_io-machine s = refl

pub wait_current_thread_on_io-Tame :
    (s : ThreadStore) → Tame (view (on_io s)) (wait_current_thread_on_io s)
unfolding wait_current_thread_on_io
wait_current_thread_on_io-Tame s = schedule-Tame priority_high (on_io s)

-- ===== src/Spec/Kept.antt =====
-- UtilityFunctions.cpp: the mutexes, the machine and who waits for a reply, up to the first switch of a
-- computation.
use mathlib.Core.Option
use project.Prelude.{
  ℕ, zero, suc, ◌≡◌, refl, ap, subst, ◌∙◌, inl, inr, Bool, ◌&&◌, Option, none, some, List, [], ◌∷◌,
  ltb, ◌==◌, Bool-cases, update-cases, or_else,
}
use mathlib.Core.Path.{fun_ext}
use project.Machine.Data.{Machine}
use project.Vm.Data.{
  Mutex, MutexInfo, Tcb, ThreadState, dead, running, ready, waiting, ThreadStore, priority_high,
  is_running, is_idle,
}
use project.Vm.Run.{Run, finish}
use project.Vm.Tcb.{write_mutexes, write_tcb, set_state, sleep}
use project.Vm.Schedule.{
  push_ready, take_front, scan, pick, requeue, switch_out, context_switch, switch_to_new_thread,
  are_all_lists_empty, switch_to_picked, schedule,
}
use project.Vm.Wait.{
  is_found, take_off, wake, schedule_woken, remove_from_waitlist_early, schedule_thread_early,
}
use project.Vm.Locks.{hand_over}
use project.Spec.Run.{Maybe, Perhaps, Perhaps-mono}

-- Which threads wait for a reply.
abbrev pub io : ThreadStore → ℕ → Bool
io s t = (s.tcb t).waiting_on_io

abbrev pub kept : ThreadStore → (ℕ → Mutex) × Machine × (ℕ → Bool)
kept s = (s.mutex, s.machine, io s)

abbrev pub Kept : ThreadStore → ThreadStore → Type 0
Kept s u = kept u ≡ kept s

-- A write to another field of a thread.
pub write_tcb-Kept :
    (t : ℕ) (b : Tcb) (s : ThreadStore)
    → b.waiting_on_io ≡ (s.tcb t).waiting_on_io
    → Kept s (write_tcb t b s)
write_tcb-Kept t b s h =
    ap {A = ℕ → Bool} (λ f. (s.mutex, s.machine, f))
      (fun_ext λ i.
        update-cases (λ x. x.waiting_on_io ≡ (s.tcb i).waiting_on_io) s.tcb t i b
          (λ e. h ∙ ap (io s) e) refl)

pub write_mutexes-Kept :
    (t : ℕ) (infos : List MutexInfo) (s : ThreadStore) → Kept s (write_mutexes t infos s)
unfolding write_mutexes
write_mutexes-Kept t infos s = write_tcb-Kept t _ s refl

pub set_state-Kept : (t : ℕ) (x : ThreadState) (s : ThreadStore) → Kept s (set_state t x s)
unfolding set_state
set_state-Kept t x s = write_tcb-Kept t _ s refl

pub asleep-Kept : (t tick : ℕ) (s : ThreadStore) → Kept s (sleep t tick s)
unfolding sleep
asleep-Kept t tick s = write_tcb-Kept t _ s refl

pub Maybe-Kept :
    (s s' : ThreadStore) (o : Option ThreadStore) → Kept s s' → Maybe (Kept s') o → Maybe (Kept s) o
Maybe-Kept s s' none e h = tt
Maybe-Kept s s' (some u) e h = h ∙ e

pub Perhaps-Kept :
    {A : Type 0} (s s' : ThreadStore) (r : Run A)
    → Kept s s'
    → Perhaps (Kept s') r
    → Perhaps (Kept s) r
Perhaps-Kept s s' r e h = Perhaps-mono (Kept s') (Kept s) r (λ u k. k ∙ e) h

pub push_ready-Kept : (t : ℕ) (s : ThreadStore) → Maybe (Kept s) (push_ready t s)
unfolding push_ready
push_ready-Kept t s = elim (Bool-cases (ltb (s.tcb t).priority 4)) [
  | inl e ↦ rw e refl
  | inr e ↦ rw e tt
]

take_front-Kept :
    (p : ℕ) (l : List ℕ) (s : ThreadStore) → Maybe (λ r. Kept s r.1) (take_front p l s)
unfolding take_front
take_front-Kept p [] s = tt
take_front-Kept p (t ∷ ts) s = elim (Bool-cases (p == 0)) [ inl e ↦ rw e refl | inr e ↦ rw e refl ]

or_else-Maybe :
    {A : Type 0} (P : A → Type 0) (x y : Option A) → Maybe P x → Maybe P y → Maybe P (or_else x y)
or_else-Maybe P none y h k = k
or_else-Maybe P (some a) y h k = h

scan-Kept : (n p : ℕ) (s : ThreadStore) → Maybe (λ r. Kept s r.1) (scan n p s)
unfolding scan
scan-Kept zero p s = tt
scan-Kept (suc i) p s = elim (Bool-cases (i == p)) [
  | inl e ↦ rw e (scan-Kept i p s)
  | inr e ↦ rw e (
      or_else-Maybe (λ r. Kept s r.1) _ _ (take_front-Kept i (s.ready_lists i) s) (scan-Kept i p s))
]

pick-Kept : (p : ℕ) (s : ThreadStore) → Maybe (λ r. Kept s r.1) (pick p s)
unfolding pick
pick-Kept p s = elim (Bool-cases (ltb p 4)) [
  | inl e ↦ rw e (
      or_else-Maybe (λ r. Kept s r.1) _ _ (take_front-Kept p (s.ready_lists p) s) (scan-Kept 4 p s))
  | inr e ↦ rw e tt
]

requeue-Kept : (t : ℕ) (x : ThreadState) (s : ThreadStore) → Maybe (Kept s) (requeue t x s)
unfolding requeue
requeue-Kept t waiting s = refl
requeue-Kept t dead s = refl
requeue-Kept t ready s = push_ready-Kept t s
requeue-Kept t running s =
    Maybe-Kept s (set_state t ready s) _ (set_state-Kept t ready s)
      (push_ready-Kept t (set_state t ready s))

switch_to_new_thread-Kept : (t : ℕ) (s : ThreadStore) → Perhaps (Kept s) (switch_to_new_thread t s)
unfolding switch_to_new_thread switch_out
switch_to_new_thread-Kept t s = elim (Bool-cases (is_idle (s'.tcb c).entry_function)) [
  | inl e ↦ rw e (set_state-Kept t running s)
  | inr e ↦ rw e (go (requeue c (s'.tcb c).state s') (requeue-Kept c (s'.tcb c).state s'))
]
  where
    c : ℕ
    c = s.current_thread

    s' : ThreadStore
    s' = set_state t running s

    go : (o : Option ThreadStore) → Maybe (Kept s') o → Perhaps (Kept s) (context_switch c t o)
    go none h = tt
    go (some u) h = h ∙ set_state-Kept t running s

pub schedule-Kept : (p : ℕ) (s : ThreadStore) → Perhaps (Kept s) (schedule p s)
unfolding schedule
schedule-Kept p s =
    elim (Bool-cases (are_all_lists_empty s && is_running (s.tcb s.current_thread).state)) [
      | inl e ↦ rw e refl
      | inr e ↦ rw e (go (pick p s) (pick-Kept p s))
    ]
  where
    go :
        (o : Option (ℕ × ThreadStore))
        → Maybe (λ r. Kept s r.1) o
        → Perhaps (Kept s) (switch_to_picked o)
    go none h = tt
    go (some (t, u)) h =
        subst (λ f. Perhaps (λ w. kept w ≡ f) (switch_to_new_thread t u)) h
          (switch_to_new_thread-Kept t u)

wake-Kept : (t : ℕ) (s : ThreadStore) → Maybe (Kept s) (wake t s)
unfolding wake take_off
wake-Kept t s =
    go (push_ready t (set_state t ready (sleep t 0 s)))
      (push_ready-Kept t (set_state t ready (sleep t 0 s)))
  where
    go :
        (o : Option ThreadStore)
        → Maybe (Kept (set_state t ready (sleep t 0 s))) o
        → Maybe (Kept s) (Option.map (take_off t) o)
    go none h = tt
    go (some u) h = h ∙ set_state-Kept t ready (sleep t 0 s) ∙ asleep-Kept t 0 s

schedule_thread_early-Kept :
    (t : ℕ) (s : ThreadStore) → Perhaps (Kept s) (schedule_thread_early t s)
unfolding schedule_thread_early
schedule_thread_early-Kept t s = elim (Bool-cases (is_found t s)) [
  | inl e ↦ rw e (go (wake t s) (wake-Kept t s))
  | inr e ↦ rw e refl
]
  where
    go : (o : Option ThreadStore) → Maybe (Kept s) o → Perhaps (Kept s) (schedule_woken o)
    go none h = tt
    go (some u) h =
        subst (λ f. Perhaps (λ w. kept w ≡ f) (schedule priority_high u)) h
          (schedule-Kept priority_high u)

remove_from_waitlist_early-Kept :
    (t : ℕ) (s : ThreadStore) → Perhaps (Kept s) (remove_from_waitlist_early t s)
unfolding remove_from_waitlist_early
remove_from_waitlist_early-Kept t s = elim (Bool-cases (is_found t s)) [
  | inl e ↦ rw e (go (wake t s) (wake-Kept t s))
  | inr e ↦ rw e refl
]
  where
    go : (o : Option ThreadStore) → Maybe (Kept s) o → Perhaps (Kept s) (finish o)
    go none h = tt
    go (some u) h = h

pub hand_over-Kept : (p t : ℕ) (s : ThreadStore) → Perhaps (Kept s) (hand_over p t s)
unfolding hand_over
hand_over-Kept p t s = elim (Bool-cases (ltb p (s'.tcb t).priority)) [
  | inl e ↦ rw e (Perhaps-Kept s s' _ same (schedule_thread_early-Kept t s'))
  | inr e ↦ rw e (Perhaps-Kept s s' _ same (remove_from_waitlist_early-Kept t s'))
]
  where
    s' : ThreadStore
    s' = set_state t (s.tcb t).state (sleep t 0 s)

    same : Kept s s'
    same = set_state-Kept t (s.tcb t).state (sleep t 0 s) ∙ asleep-Kept t 0 s

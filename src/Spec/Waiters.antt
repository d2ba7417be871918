-- ===== src/Spec/Waiters.antt =====
-- UtilityFunctions.cpp: the place of a thread in the queue of a mutex, and its turn.
use project.Prelude.{
  ℕ, zero, suc, ◌+◌, ◌-◌, ◌%◌, ◌<◌, ◌≡◌, refl, ap, subst, ◌∙◌, ◌≢◌, inl, inr, true, false, Option,
  none, some, List, [], ◌∷◌, ◌++◌, arith, ◌==◌, if◌then◌else◌, Bool-cases, update, get_elem?,
  ==_refl, update_self, ltb_of_lt,
}
use mathlib.Core.List.{append_assoc, append-nil}
use project.Vm.Data.{timeout_immediate, is_idle, ThreadStore, priority_high, timeout_infinite}
use project.Vm.Run.{Run, done, switched, undefined, unfinished, aborted}
use project.Vm.Tcb.{sleep, add_mutex, write_mutexes, set_waiting_on_mutex}
use project.Vm.Locks.{
  release, lock, lock_owned, wait_for, push_waiter, sleep_queued, write_mutex, with_waiter,
}
use project.Vm.Wait.{sleep_current_thread}
use project.Safety.Inv.{Inv}
use project.Safety.Safe.{Any}
use project.Safety.Locks.{lock-Safe}
use project.Spec.Run.{At, At-Safe, Perhaps, Perhaps-mono, first, rest}
use project.Spec.Kept.{Kept, Perhaps-Kept, asleep-Kept, schedule-Kept}
use project.Spec.Schedule.{below}
use project.Spec.Mutexes.{waiters, IsServed, release-IsServed}

-- The waiters of the priority lists from the highest down to one.
abbrev pub down_to : ℕ → (ℕ → List ℕ) → List ℕ
down_to zero lists = lists 2 ++ (lists 1 ++ lists 0)
down_to (suc zero) lists = lists 2 ++ lists 1
down_to (suc (suc _)) lists = lists 2

-- A store at which the operation ends or switches threads.
abbrev pub Reaches : {A : Type 0} → ThreadStore → Run A → Type 0
Reaches u r = At (λ w. w ≡ u) r

At-Reaches :
    {A : Type 0} (P : ThreadStore → Type 0) (u : ThreadStore) (r : Run A)
    → At P r
    → Reaches u r
    → P u
At-Reaches P u (done a s) h e = subst P e h
At-Reaches P u (switched t s k) h e = subst P e h
At-Reaches P u undefined h e = absurd h
At-Reaches P u unfinished h e = absurd h
At-Reaches P u aborted h e = absurd h

-- So many releases of the mutex, one after the other, with anything in between that leaves the mutex
-- as it is.
pub data Turns (m : ℕ) : ℕ → ThreadStore → ThreadStore → Type 0 where
  over : {s : ThreadStore} → Turns m zero s s
  released :
      (u : ThreadStore) {k : ℕ} {s s' w : ThreadStore}
      → Inv s
      → m < s.mutexes
      → (s.mutex m).owner ≢ none
      → Reaches u (release m s)
      → s'.mutex m ≡ u.mutex m
      → Turns m k s' w
      → Turns m (suc k) s w

later : (k t : ℕ) (l : List ℕ) → get_elem? l (suc k) ≡ some t → get_elem? (rest l) k ≡ some t
later k t [] h = cc
later k t (u ∷ l) h = h

soonest : (t : ℕ) (l : List ℕ) → get_elem? l zero ≡ some t → first l ≡ some t
soonest t [] h = cc
soonest t (u ∷ l) h = h

-- The thread that stands at position `k` of the queue of a mutex, the first being at position 0, owns
-- the mutex after `k + 1` releases from stores with the invariant, as long as between them the mutex
-- stays as the last release has left it.
pub Turns-owner :
    (m k t : ℕ) (s w : ThreadStore)
    → Turns m (suc k) s w
    → get_elem? (waiters (s.mutex m).priority_lists) k ≡ some t
    → (w.mutex m).owner ≡ some t
Turns-owner m zero t s w (released u {s' = s'} v hm ho r e over) h =
    let served =
      At-Reaches (IsServed m (waiters (s.mutex m).priority_lists)) u (release m s)
        (release-IsServed m s v hm ho) r in
    ap (λ x. x.owner) e ∙ served.0 ∙ soonest t _ h
Turns-owner m (suc k) t s w (released u {s' = s'} v hm ho r e more) h =
    let served =
      At-Reaches (IsServed m (waiters (s.mutex m).priority_lists)) u (release m s)
        (release-IsServed m s v hm ho) r in
    Turns-owner m k t s' w more (
      ap (λ x. get_elem? (waiters x.priority_lists) k) e
      ∙ ap (λ l. get_elem? l k) served.1
      ∙ later k t (waiters (s.mutex m).priority_lists) h)

push-below :
    (lists : ℕ → List ℕ) (i t : ℕ)
    → i < 3
    → waiters (update lists i (lists i ++ t ∷ [])) ≡ down_to i lists ++ t ∷ below i lists
unfolding waiters
push-below lists zero t h =
    rw
      (
        append_assoc (lists 2) (lists 1 ++ lists 0) (t ∷ []),
        append_assoc (lists 1) (lists 0) (t ∷ []),
      )
      refl
push-below lists (suc zero) t h =
    rw
      (
        append_assoc (lists 1) (t ∷ []) (lists 0),
        append_assoc (lists 2) (lists 1) (t ∷ (lists 0 ++ [])),
        append-nil (lists 0),
      )
      refl
push-below lists (suc (suc zero)) t h =
    rw (append_assoc (lists 2) (t ∷ []) (lists 1 ++ lists 0), append-nil (lists 0)) refl
push-below lists (suc (suc (suc i))) t h = absurd (omega (arith, h))

pub sleep-Kept : (tick : ℕ) (s : ThreadStore) → Perhaps (Kept s) (sleep_current_thread tick s)
unfolding sleep_current_thread
sleep-Kept tick s = elim (Bool-cases (tick == 0)) [
  | inl e ↦ rw e (Perhaps-Kept s s' _ same (schedule-Kept _ s'))
  | inr e ↦ rw e (Perhaps-Kept s s' _ same (schedule-Kept priority_high s'))
]
  where
    s' : ThreadStore
    s' = sleep s.current_thread tick s

    same : Kept s s'
    same = asleep-Kept s.current_thread tick s

-- The thread stands in the queue of the mutex behind those of its priority and above.
abbrev pub IsQueued : ℕ → ℕ → ℕ → (ℕ → List ℕ) → ThreadStore → Type 0
IsQueued m t i lists u = waiters (u.mutex m).priority_lists ≡ down_to i lists ++ t ∷ below i lists

module _ (m t i timeout : ℕ) (small : i < 3) where
  push_waiter-IsQueued :
      (s : ThreadStore)
      → (s.tcb t).priority ≡ suc i
      → Perhaps
          (IsQueued m t i (s.mutex m).priority_lists)
          (sleep_queued timeout (push_waiter m t s))
  unfolding push_waiter
  push_waiter-IsQueued s e =
      rw (e, index, ltb_of_lt i 3 small)
        (Perhaps-mono (Kept s1) (IsQueued m t i (s.mutex m).priority_lists)
          (sleep_current_thread (if timeout == timeout_infinite then 4294967295 else timeout) s1)
          (λ u h.
            ap (λ f. waiters (f.0 m).priority_lists) h
            ∙ ap (λ y. waiters y.priority_lists)
                (update_self s.mutex m (with_waiter (s.mutex m) i t))
            ∙ push-below (s.mutex m).priority_lists i t small)
          (sleep-Kept _ s1))
    where
      s1 : ThreadStore
      s1 = write_mutex m (with_waiter (s.mutex m) i t) s

      index : (suc i + 4294967295) % 4294967296 ≡ i
      index = omega (arith, small)

wait_for-IsQueued :
    (m i timeout : ℕ) (s : ThreadStore)
    → i < 3
    → (s.tcb s.current_thread).priority ≡ suc i
    → Perhaps
        (IsQueued m s.current_thread i (s.mutex m).priority_lists)
        (wait_for m s.current_thread timeout s)
unfolding wait_for add_mutex set_waiting_on_mutex write_mutexes
wait_for-IsQueued m i timeout s small e =
    push_waiter-IsQueued m s.current_thread i timeout small
      (add_mutex s.current_thread m true (set_waiting_on_mutex s.current_thread true s))
      (rw (==_refl s.current_thread) e)

-- In a store with the invariant, the current thread, which is not the idle thread, locks a mutex that has
-- an owner, with a time-out that is not immediate: when the call switches threads or ends, the thread
-- stands in the queue of the mutex behind all that have its priority or a higher one and before all
-- that have a lower one, and the others stand there in the same order as before.
pub lock-IsQueued :
    (m timeout : ℕ) (s : ThreadStore)
    → Inv s
    → m < s.mutexes
    → is_idle (s.tcb s.current_thread).entry_function ≡ false
    → (s.mutex m).owner ≢ none
    → (timeout == timeout_immediate) ≡ false
    → At
        (IsQueued m s.current_thread
          ((s.tcb s.current_thread).priority - 1)
          (s.mutex m).priority_lists)
        (lock m s.current_thread timeout s)
unfolding lock
lock-IsQueued m timeout s v hm hi ho late =
    At-Safe (IsQueued m c i (s.mutex m).priority_lists) c Any s (lock m c timeout s)
      (lock-Safe m timeout s v hm hi) (from (s.mutex m).owner refl)
  where
    c : ℕ
    c = s.current_thread

    i : ℕ
    i = (s.tcb c).priority - 1

    from :
        (x : Option ℕ)
        → (s.mutex m).owner ≡ x
        → Perhaps (IsQueued m c i (s.mutex m).priority_lists) (lock_owned m c timeout x s)
    from none e = absurd (ho e)
    from (some o) e =
        let low = v.priorities.at_least c v.lists.current hi in
        let high = v.priorities.at_most c v.lists.current in
        rw late (wait_for-IsQueued m i timeout s (omega (arith, high, low)) (omega (arith, low)))

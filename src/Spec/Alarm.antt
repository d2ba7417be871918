-- ===== src/Spec/Alarm.antt =====
-- UtilityFunctions.cpp: what ThreadStore::timerEvent does to a thread of the wait list that sleeps.
use project.Prelude.{
  ℕ, zero, suc, ◌+◌, ◌%◌, ◌<◌, ◌≡◌, refl, sym, ap, subst, ◌∙◌, inl, inr, Bool, true, false, not,
  ◌&&◌, Option, none, some, List, [], ◌∷◌, ◌++◌, arith, ltb, ◌==◌, Bool-cases, update, eq_of_==,
  count, count-push, ==_refl,
}
use project.Vm.Data.{Tcb, ready, ThreadStore}
use project.Vm.Tcb.{
  set_state, sleep, write_mutexes, set_waiting_on_mutex, decrement_ticks_to_sleep,
  get_waiting_mutex, is_waiting_on_mutex,
}
use project.Vm.Schedule.{push_ready}
use project.Vm.Timer.{has_acquired, check_mutex, tick_thread, woken, then_tick, keep_if, tick_all}
use project.Safety.Inv.{Inv, Ensures}
use project.Safety.Timer.{Kept, tick_all-Kept}
use project.Spec.Run.{Maybe}
use project.Spec.Sleep.{tick, IsAsleep, IsReadied, tick_down, wakes_now}

-- A thread, and how often it stands in the ready lists, are as before.
pub record IsSpared (t : ℕ) (s u : ThreadStore) : Type 0 where
  pub tcb : u.tcb t ≡ s.tcb t
  pub listed : (p : ℕ) → count t (u.ready_lists p) ≡ count t (s.ready_lists p)

IsSpared-trans : (t : ℕ) (s u w : ThreadStore) → IsSpared t s u → IsSpared t u w → IsSpared t s w
IsSpared-trans t s u w a b = record { tcb = b.tcb ∙ a.tcb; listed = λ p. b.listed p ∙ a.listed p }

-- The tick of another thread.
module _ (t x : ℕ) (other : (x == t) ≡ false) where
  write-IsSpared : (b : Tcb) (s : ThreadStore) → IsSpared t s (record s { tcb = update s.tcb x b })
  write-IsSpared b s = record { tcb = rw other refl; listed = λ p. refl }

  check_mutex-IsSpared : (s : ThreadStore) → IsSpared t s (check_mutex x s)
  unfolding check_mutex sleep set_waiting_on_mutex write_mutexes
  check_mutex-IsSpared s =
      elim (Bool-cases (is_waiting_on_mutex x s && has_acquired x (get_waiting_mutex x s) s)) [
        | inl e ↦ rw e (record { tcb = rw other refl; listed = λ p. refl })
        | inr e ↦ rw e (record { tcb = refl; listed = λ p. refl })
      ]

  pushed-IsSpared :
      (s : ThreadStore)
      → Maybe
          (λ (r : ThreadStore × Bool). IsSpared t s r.0)
          (woken (push_ready x (set_state x ready s)))
  unfolding push_ready set_state
  pushed-IsSpared s = rw (==_refl x) (elim (Bool-cases (ltb (s.tcb x).priority 4)) [
    | inl e ↦ rw e (record { tcb = rw other refl; listed = listed })
    | inr e ↦ rw e tt
  ])
    where
      absent : (queue : List ℕ) → count t (queue ++ x ∷ []) ≡ count t queue
      absent queue =
          let e : (t == x) ≡ false = ground (arith, other) in
          count-push t x queue ∙ (rw e (omega arith))

      listed :
          (p : ℕ)
          → count t (
              update s.ready_lists
                (s.tcb x).priority
                (s.ready_lists (s.tcb x).priority ++ x ∷ [])
                p)
            ≡ count t (s.ready_lists p)
      listed p = elim (Bool-cases ((s.tcb x).priority == p)) [
        | inl e ↦ rw e (
            absent (s.ready_lists (s.tcb x).priority)
            ∙ ap (λ i. count t (s.ready_lists i)) (eq_of_== (s.tcb x).priority p e))
        | inr e ↦ rw e refl
      ]

  tick_thread-IsSpared :
      (s : ThreadStore) → Maybe (λ (r : ThreadStore × Bool). IsSpared t s r.0) (tick_thread x s)
  unfolding tick_thread decrement_ticks_to_sleep
  tick_thread-IsSpared s = elim (Bool-cases (s.tcb x).waiting_on_io) [
    | inl e ↦ rw e (record { tcb = refl; listed = λ p. refl })
    | inr e ↦
        rw e
          (elim (Bool-cases
            (not ((s.tcb x).ticks_to_sleep == 4294967295) && ltb 0 (s.tcb x).ticks_to_sleep)) [
              | inl f ↦ rw f (record { tcb = rw other refl; listed = λ p. refl })
              | inr f ↦ rw f (elim (Bool-cases ((s.tcb x).ticks_to_sleep == 4294967295)) [
                | inl g ↦ rw g (record { tcb = refl; listed = λ p. refl })
                | inr g ↦ rw g (pushed-IsSpared s)
              ])
            ])
  ]

  tick-IsSpared :
      (s : ThreadStore) → Maybe (λ (r : ThreadStore × Bool). IsSpared t s r.0) (tick x s)
  tick-IsSpared s = after (tick_thread x (check_mutex x s)) (tick_thread-IsSpared (check_mutex x s))
    where
      after :
          (o : Option (ThreadStore × Bool))
          → Maybe (λ (r : ThreadStore × Bool). IsSpared t (check_mutex x s) r.0) o
          → Maybe (λ (r : ThreadStore × Bool). IsSpared t s r.0) o
      after none m = tt
      after (some (u, stays)) m = IsSpared-trans t s (check_mutex x s) u (check_mutex-IsSpared s) m

-- With other ticks left.
abbrev pub with_left : ℕ → Tcb → Tcb
with_left k b = record b { ticks_to_sleep = k }

-- The thread after the event: it is on the wait list once more, with one tick less and in no ready list
-- more than before; or its time is over, and it has left the wait list for the ready list of its
-- priority.
abbrev pub IsTicked : ℕ → ℕ → ThreadStore → ThreadStore × List ℕ → Type 0
IsTicked zero t s (u, kept) =
    (count t kept ≡ 0)
    × ((u.tcb t).state ≡ ready)
    × (count t (u.ready_lists (s.tcb t).priority) ≡ count t (s.ready_lists (s.tcb t).priority) + 1)
IsTicked (suc k) t s (u, kept) =
    (count t kept ≡ 1)
    × (u.tcb t ≡ with_left k (s.tcb t))
    × ((p : ℕ) → count t (u.ready_lists p) ≡ count t (s.ready_lists p))

IsTicked-later :
    (k t : ℕ) (s u : ThreadStore) (r : ThreadStore × List ℕ)
    → IsSpared t s u
    → IsTicked k t u r
    → IsTicked k t s r
IsTicked-later zero t s u (w, kept) a (h, i, j) =
    (h, i, (rw a.tcb at j) ∙ ap (λ n. n + 1) (a.listed (s.tcb t).priority))
IsTicked-later (suc k) t s u (w, kept) a (h, i, j) =
    (h, i ∙ ap (with_left k) a.tcb, λ p. j p ∙ a.listed p)

IsTicked-cons :
    (k t x : ℕ) (s u : ThreadStore) (l : List ℕ)
    → (x == t) ≡ false
    → IsTicked k t s (u, l)
    → IsTicked k t s (u, x ∷ l)
IsTicked-cons zero t x s u l e (h, i, j) = (ground (arith, h, e), i, j)
IsTicked-cons (suc k) t x s u l e (h, i, j) = (ground (arith, h, e), i, j)

IsAsleep-later : (k t : ℕ) (s u : ThreadStore) → IsSpared t s u → IsAsleep k t s → IsAsleep k t u
unfolding is_waiting_on_mutex
IsAsleep-later k t s u a h = record {
  left = rw a.tcb h.left;
  no_io = rw a.tcb h.no_io;
  no_mutex = rw a.tcb h.no_mutex;
  priority = rw a.tcb h.priority;
}

module _ (t : ℕ) where
  -- The rest of the loop, behind the thread.
  abbrev Missed : ThreadStore → ThreadStore × List ℕ → Type 0
  Missed s (u, kept) = IsSpared t s u × (count t kept ≡ 0)

  tick_all-Missed :
      (ts : List ℕ) (s : ThreadStore) → count t ts ≡ 0 → Maybe (Missed s) (tick_all ts s)
  unfolding tick_all
  tick_all-Missed [] s h = (record { tcb = refl; listed = λ p. refl }, refl)
  tick_all-Missed (x ∷ ts) s h =
      missed (tick x s) (tick-IsSpared t x other s) (λ u. tick_all-Missed ts u (omega (arith, h)))
    where
      other : (x == t) ≡ false
      other = ground (arith, h)

      kept :
          (u : ThreadStore) (stays : Bool) (o : Option (ThreadStore × List ℕ))
          → IsSpared t s u
          → Maybe (Missed u) o
          → Maybe (Missed s) (keep_if x stays o)
      kept u stays none a m = tt
      kept u true (some (w, l)) a (m, n) = (IsSpared-trans t s u w a m, ground (arith, n, other))
      kept u false (some (w, l)) a (m, n) = (IsSpared-trans t s u w a m, n)

      missed :
          (o : Option (ThreadStore × Bool))
          → Maybe (λ (r : ThreadStore × Bool). IsSpared t s r.0) o
          → ((u : ThreadStore) → Maybe (Missed u) (tick_all ts u))
          → Maybe (Missed s) (then_tick x o (tick_all ts))
      missed none a m = tt
      missed (some (u, stays)) a m = kept u stays (tick_all ts u) a (m u)

  -- The thread itself.
  own_tick :
      (k : ℕ) (ts : List ℕ) (s : ThreadStore)
      → IsAsleep k t s
      → k < 4294967295
      → count t ts ≡ 0
      → Maybe (IsTicked k t s) (then_tick t (tick t s) (tick_all ts))
  own_tick zero ts s a h n =
      let (u, e, r) = wakes_now t s a in rw e (over u r (tick_all ts u) (tick_all-Missed ts u n))
    where
      over :
          (u : ThreadStore)
          → IsReadied t s u
          → (o : Option (ThreadStore × List ℕ)) → Maybe (Missed u) o
          → Maybe (IsTicked 0 t s) (keep_if t false o)
      over u r none m = tt
      over u r (some (w, l)) (m, n) = (
        n,
        (rw m.tcb r.state),
        m.listed (s.tcb t).priority
            ∙ ap (count t) r.listed
            ∙ count-push t t (s.ready_lists (s.tcb t).priority)
            ∙ (rw (==_refl t) (omega arith)),
      )
  own_tick (suc k) ts s a h n =
      let u : ThreadStore = decrement_ticks_to_sleep t s in
      rw (tick_down k t s a (omega (arith, h))) (on (tick_all ts u) (tick_all-Missed ts u n))
    where
      on :
          (o : Option (ThreadStore × List ℕ))
          → Maybe (Missed (decrement_ticks_to_sleep t s)) o
          → Maybe (IsTicked (suc k) t s) (keep_if t true o)
      on none m = tt
      on (some (w, l)) (m, n) =
          ((rw (==_refl t) (omega (arith, n))), m.tcb ∙ down, λ p. m.listed p ∙ same p)
        where
          wrapped : (suc k + 4294967295) % 4294967296 ≡ k
          wrapped = omega (arith, h)

          down : (decrement_ticks_to_sleep t s).tcb t ≡ with_left k (s.tcb t)
          down =
              unfold decrement_ticks_to_sleep in
              rw (==_refl t, a.left) (ap (λ n. with_left n (s.tcb t)) wrapped)

          same :
              (p : ℕ)
              → count t ((decrement_ticks_to_sleep t s).ready_lists p) ≡ count t (s.ready_lists p)
          same p = unfold decrement_ticks_to_sleep in refl

  round :
      (k : ℕ) (ts : List ℕ) (s : ThreadStore)
      → IsAsleep k t s
      → k < 4294967295
      → count t ts ≡ 1
      → Maybe (IsTicked k t s) (tick_all ts s)
  unfolding tick_all
  round k [] s a h n = absurd (omega (arith, n))
  round k (x ∷ ts) s a h n = elim (Bool-cases (x == t)) [
    | inl e ↦
        subst (λ y. Maybe (IsTicked k t s) (then_tick y (tick y s) (tick_all ts)))
          (sym (eq_of_== x t e)) (own_tick k ts s a h (ground (arith, n, e)))
    | inr e ↦
        other e (tick x s) (tick-IsSpared t x e s) (λ u b. round k ts u b h (ground (arith, n, e)))
  ]
    where
      kept :
          (u : ThreadStore) (stays : Bool) (o : Option (ThreadStore × List ℕ))
          → (x == t) ≡ false
          → IsSpared t s u
          → Maybe (IsTicked k t u) o
          → Maybe (IsTicked k t s) (keep_if x stays o)
      kept u stays none e b m = tt
      kept u true (some (w, l)) e b m =
          IsTicked-later k t s u (w, x ∷ l) b (IsTicked-cons k t x u w l e m)
      kept u false (some (w, l)) e b m = IsTicked-later k t s u (w, l) b m

      other :
          (x == t) ≡ false
          → (o : Option (ThreadStore × Bool))
          → Maybe (λ (r : ThreadStore × Bool). IsSpared t s r.0) o
          → ((u : ThreadStore) → IsAsleep k t u → Maybe (IsTicked k t u) (tick_all ts u))
          → Maybe (IsTicked k t s) (then_tick x o (tick_all ts))
      other e none b m = tt
      other e (some (u, stays)) b m =
          kept u stays (tick_all ts u) e b (m u (IsAsleep-later k t s u b a))

both :
    (s : ThreadStore) (P : ThreadStore × List ℕ → Type 0) (o : Option (ThreadStore × List ℕ))
    → Ensures (Kept s) o
    → Maybe P o
    → Ensures P o
both s P none h m = h
both s P (some r) h m = m

-- In a store with the invariant, a thread that stands once on the wait list, has a valid priority,
-- waits neither for a reply nor on a mutex, and has `k` ticks to sleep, `k` below 2^32 - 1. The loop of
-- one timer event over the wait list, with whatever it does for the other threads of the list, comes
-- to its end. If `k` is not zero, the thread stands once on the new wait list, has one tick less to
-- sleep and is otherwise as it was, and no ready list holds it more often than before. If `k` is zero,
-- it is on the new wait list no longer, its state is ready, and the ready list of its priority holds
-- it once more than before.
pub tick_all-IsTicked :
    (k t : ℕ) (s : ThreadStore)
    → Inv s
    → IsAsleep k t s
    → k < 4294967295
    → count t s.wait_list ≡ 1
    → Ensures (IsTicked k t s) (tick_all s.wait_list s)
tick_all-IsTicked k t s v a h n =
    both s (IsTicked k t s) (tick_all s.wait_list s) (tick_all-Kept s.wait_list s v v.lists.wait)
      (round t k s.wait_list s a h n)

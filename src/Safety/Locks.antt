-- ===== src/Safety/Locks.antt =====
-- UtilityFunctions.cpp: safety of Mutex::lock.
use project.Prelude.{
  ℕ, ◌<◌, ◌≡◌, refl, inl, inr, Bool, true, false, Option, none, some, arith, ◌==◌, Bool-cases,
  update-cases, update_self, ltb_of_lt,
}
use project.Vm.Data.{is_idle, timeout_immediate, Mutex, ThreadStore}
use project.Vm.Tcb.{add_mutex, write_mutexes, set_waiting_on_mutex}
use project.Vm.Locks.{
  write_mutex, set_owner, list_index, with_waiter, push_waiter, sleep_queued, wait_for, lock_owned,
  lock,
}
use project.Safety.Inv.{Valid, Valid-push, Ensures, Ensures-mono, Inv, queued}
use project.Safety.Safe.{Grows-refl, Next, Next-le, Next-trans, Safe, Any, Safe-Next}
use project.Safety.Wait.{sleep_current_thread-Safe}
use project.Safety.Entries.{queued-IsFree, queued-with_waiter}
use project.Safety.Mutexes.{write_mutex-Next, set_waiting_on_mutex-Next, add_mutex-Next}

-- A thread that is not idle has a priority list.
list_index-lt :
    (t : ℕ) (s : ThreadStore)
    → Inv s
    → t < s.tcbs
    → is_idle (s.tcb t).entry_function ≡ false
    → list_index (s.tcb t) < 3
list_index-lt t s v ht hi = omega (arith, v.priorities.at_most t ht, v.priorities.at_least t ht hi)

module _ (m t : ℕ) (w : Bool) (s : ThreadStore) (o : ℕ) (v : Inv s) (hm : m < s.mutexes)
    (e : (s.mutex m).owner ≡ some o) (ht : t < s.tcbs) where
  waiter-Next : (i : ℕ) → i < 3 → Next s (write_mutex m (with_waiter (s.mutex m) i t) s)
  waiter-Next i hi =
      write_mutex-Next m (with_waiter (s.mutex m) i t) s
        (record {
          listed =
              λ u h. omega (arith, queued-with_waiter u t i (s.mutex m) hi, v.locks.listed u m h);
          free = λ never. cc;
          owner = v.locks.owner m hm;
          waiters = λ j.
              update-cases (Valid s.tcbs) (s.mutex m).priority_lists i j _
                (λ _. Valid-push s.tcbs t _ (v.locks.waiters m i hm) ht) (v.locks.waiters m j hm);
        })
        v

  -- The order of the two writes does not matter.
  queue_up-Next :
      (i : ℕ) → i < 3 → Next s (write_mutex m (with_waiter (s.mutex m) i t) (add_mutex t m w s))
  unfolding add_mutex write_mutexes
  queue_up-Next i hi =
      let n = waiter-Next i hi in
      Next-trans n (
        add_mutex-Next t (write_mutex m (with_waiter (s.mutex m) i t) s) n.inv m w hm λ _.
          rw (update_self s.mutex m (with_waiter (s.mutex m) i t))
            (ground (arith, queued-with_waiter t t i (s.mutex m) hi, v.locks.listed t m ht)))

index-add_mutex :
    (m t : ℕ) (w : Bool) (s : ThreadStore)
    → list_index ((add_mutex t m w s).tcb t) ≡ list_index (s.tcb t)
unfolding add_mutex write_mutexes
index-add_mutex m t w s = rw (update_self s.tcb t)

module _ (m t : ℕ) (w : Bool) (s : ThreadStore) (o : ℕ) (v : Inv s) (hm : m < s.mutexes)
    (e : (s.mutex m).owner ≡ some o) (ht : t < s.tcbs)
    (hi : is_idle (s.tcb t).entry_function ≡ false) where
  push_waiter-Next : Ensures (Next s) (push_waiter m t (add_mutex t m w s))
  unfolding push_waiter
  push_waiter-Next =
      let i = list_index ((add_mutex t m w s).tcb t) in
      let h : i < 3 = rw (index-add_mutex m t w s) (list_index-lt t s v ht hi) in
      rw (ltb_of_lt i 3 h) (unfold add_mutex write_mutexes in queue_up-Next m t w s o v hm e ht i h)

pub wait_for-Safe :
    (m timeout : ℕ) (s : ThreadStore) (o : ℕ)
    → Inv s
    → m < s.mutexes
    → (s.mutex m).owner ≡ some o
    → is_idle (s.tcb s.current_thread).entry_function ≡ false
    → Safe s.current_thread Any s (wait_for m s.current_thread timeout s)
unfolding wait_for add_mutex set_waiting_on_mutex write_mutexes
wait_for-Safe m timeout s o v hm e hi =
    let n = set_waiting_on_mutex-Next t s v true in
    queued_up (push_waiter m t (add_mutex t m true s0)) (
      Ensures-mono (Next s0) (Next s) (λ u. Next-trans n) (push_waiter m t (add_mutex t m true s0))
        (push_waiter-Next m t true s0 o n.inv (omega (arith, n.grows.mutexes))
          (unfold set_waiting_on_mutex write_mutexes in e) (Next-le n v.lists.current)
          (rw (n.grows.fixed t v.lists.current).entry hi)))
  where
    t : ℕ
    t = s.current_thread

    s0 : ThreadStore
    s0 = set_waiting_on_mutex t true s

    queued_up :
        (r : Option ThreadStore) → Ensures (Next s) r → Safe t Any s (sleep_queued timeout r)
    queued_up none h = h
    queued_up (some u) k = Safe-Next Any s u _ k (sleep_current_thread-Safe _ u k.inv)

-- A free mutex that is taken is listed once.
taken-Next :
    (m t : ℕ) (s : ThreadStore)
    → Inv s
    → m < s.mutexes
    → (s.mutex m).owner ≡ none
    → t < s.tcbs
    → Next s (add_mutex t m false (set_owner m (some t) s))
unfolding set_owner
taken-Next m t s v hm e ht = Next-trans n (
    add_mutex-Next t (write_mutex m x s) n.inv m false hm
      λ _. rw (update_self s.mutex m x) (ground (arith, v.locks.listed t m ht, idle_queue)))
  where
    x : Mutex
    x = record (s.mutex m) { owner = some t }

    idle_queue : queued t (s.mutex m) ≡ 0
    idle_queue = queued-IsFree t (s.mutex m) (v.locks.free m hm e)

    n : Next s (write_mutex m x s)
    n =
        write_mutex-Next m x s
          (record {
            listed = λ u h. ground (arith, v.locks.listed u m h);
            free = λ never. cc;
            owner = ht;
            waiters = λ i. v.locks.waiters m i hm;
          })
          v

pub lock-Safe :
    (m timeout : ℕ) (s : ThreadStore)
    → Inv s
    → m < s.mutexes
    → is_idle (s.tcb s.current_thread).entry_function ≡ false
    → Safe s.current_thread Any s (lock m s.current_thread timeout s)
unfolding lock
lock-Safe m timeout s v hm hi = from (s.mutex m).owner refl
  where
    from :
        (x : Option ℕ)
        → (s.mutex m).owner ≡ x
        → Safe s.current_thread Any s (lock_owned m s.current_thread timeout x s)
    from none e =
        let n = taken-Next m s.current_thread s v hm e v.lists.current in
        (n.inv, n.grows, n.current, tt)
    from (some o) e = elim (Bool-cases (timeout == timeout_immediate)) [
      | inl now ↦ rw now (v, Grows-refl s, refl, tt)
      | inr later ↦ rw later (wait_for-Safe m timeout s o v hm e hi)
    ]

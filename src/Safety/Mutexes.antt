-- ===== src/Safety/Mutexes.antt =====
-- The steps that change a mutex or the list of a thread's mutexes.
use project.Prelude.{
  ℕ, ◌+◌, ◌≤◌, ◌<◌, ◌≡◌, refl, subst, inl, inr, Bool, none, List, [], ◌∷◌, ◌++◌, arith, eq_cases,
  update-cases, All, All-append,
}
use project.Vm.Data.{MutexInfo, Mutex, ThreadStore}
use project.Vm.Tcb.{
  write_mutexes, add_mutex, remove_info, remove_mutex, set_waiting_on_mutex, set_last_waiting,
}
use project.Vm.Locks.{write_mutex}
use project.Safety.Inv.{Valid, ValidOwner, Inv, IsFree, entries, owns, queued}
use project.Safety.Safe.{Next}
use project.Safety.Steps.{write_tcb-Grows}
use project.Safety.Entries.{
  entries-remove_info-le, All-remove_info, entries-append, entries-set_last_waiting,
  All-set_last_waiting,
}

-- What the invariant asks of one mutex.
pub record MutexInv (m : ℕ) (x : Mutex) (s : ThreadStore) : Type 0 where
  pub listed : (t : ℕ) → t < s.tcbs → entries m (s.tcb t).mutexes ≤ owns t x.owner + queued t x
  pub free : x.owner ≡ none → IsFree x
  pub owner : ValidOwner s.tcbs x.owner
  pub waiters : (i : ℕ) → Valid s.tcbs (x.priority_lists i)

pub MutexInv-of : (m : ℕ) (s : ThreadStore) → Inv s → m < s.mutexes → MutexInv m (s.mutex m) s
MutexInv-of m s v h = record {
  listed = λ t l. v.locks.listed t m l;
  free = v.locks.free m h;
  owner = v.locks.owner m h;
  waiters = λ i. v.locks.waiters m i h;
}

pub write_mutex-Next :
    (m : ℕ) (x : Mutex) (s : ThreadStore) → MutexInv m x s → Inv s → Next s (write_mutex m x s)
write_mutex-Next m x s k v = record {
  inv = record {
    priorities = record { at_most = v.priorities.at_most; at_least = v.priorities.at_least };
    lists = record {
      current = v.lists.current;
      ready = v.lists.ready;
      wait = v.lists.wait;
      buried = v.lists.buried;
      vector = v.lists.vector;
      idle_ready = v.lists.idle_ready;
    };
    locks = record {
      listed = λ t n h.
          update-cases (λ y. entries n (s.tcb t).mutexes ≤ owns t y.owner + queued t y) s.mutex m n
            x
            (λ e.
              subst (λ n'. entries n' (s.tcb t).mutexes ≤ owns t x.owner + queued t x) e
                (k.listed t h))
            (v.locks.listed t n h);
      allocated = v.locks.allocated;
      free = λ n h.
          update-cases (λ y. y.owner ≡ none → IsFree y) s.mutex m n x (λ _. k.free)
            (v.locks.free n h);
      owner = λ n h.
          update-cases (λ y. ValidOwner s.tcbs y.owner) s.mutex m n x (λ _. k.owner)
            (v.locks.owner n h);
      waiters = λ n i h.
          update-cases (λ y. Valid s.tcbs (y.priority_lists i)) s.mutex m n x (λ _. k.waiters i)
            (v.locks.waiters n i h);
    };
  };
  grows = record {
    threads = omega arith;
    mutexes = omega arith;
    fixed = λ t h. record { id = refl; priority = refl; entry = refl };
  };
  current = refl;
}

-- A new list of mutexes for a thread, within what it owns and waits on.
pub write_mutexes-Next :
    (t : ℕ) (l : List MutexInfo) (s : ThreadStore)
    → (t < s.tcbs → (m : ℕ) → entries m l ≤ owns t (s.mutex m).owner + queued t (s.mutex m))
    → (t < s.tcbs → All (λ i. i.mutex < s.mutexes) l)
    → Inv s
    → Next s (write_mutexes t l s)
unfolding write_mutexes
write_mutexes-Next t l s h a v = record {
  inv = record {
    priorities = record {
      at_most = λ u k. ground (arith, v.priorities.at_most u k);
      at_least = λ u k. ground (arith, v.priorities.at_least u k);
    };
    lists = record {
      current = v.lists.current;
      ready = v.lists.ready;
      wait = v.lists.wait;
      buried = v.lists.buried;
      vector = v.lists.vector;
      idle_ready = v.lists.idle_ready;
    };
    locks = record {
      listed = λ u m k.
          update-cases (λ b. entries m b.mutexes ≤ owns u (s.mutex m).owner + queued u (s.mutex m))
            s.tcb t u (record (s.tcb t) { mutexes = l })
            (λ e.
              subst
                (λ u'.
                  u' < s.tcbs → entries m l ≤ owns u' (s.mutex m).owner + queued u' (s.mutex m))
                e (λ k'. h k' m) k)
            (v.locks.listed u m k);
      allocated = λ u k.
          update-cases (λ b. All (λ i. i.mutex < s.mutexes) b.mutexes) s.tcb t u
            (record (s.tcb t) { mutexes = l }) (λ e. a (rw e k)) (v.locks.allocated u k);
      free = v.locks.free;
      owner = v.locks.owner;
      waiters = v.locks.waiters;
    };
  };
  grows = write_tcb-Grows t _ s (record { id = refl; priority = refl; entry = refl });
  current = refl;
}

module _ (t : ℕ) (s : ThreadStore) (v : Inv s) where
  pub remove_mutex-Next : (m : ℕ) → Next s (remove_mutex t m s)
  unfolding remove_mutex
  remove_mutex-Next m =
      write_mutexes-Next t (remove_info m (s.tcb t).mutexes) s
        (λ h k. omega (arith, entries-remove_info-le k m (s.tcb t).mutexes, v.locks.listed t k h))
        (λ h.
          All-remove_info (λ i. i.mutex < s.mutexes) m (s.tcb t).mutexes (v.locks.allocated t h))
        v

  pub set_waiting_on_mutex-Next : (w : Bool) → Next s (set_waiting_on_mutex t w s)
  unfolding set_waiting_on_mutex
  set_waiting_on_mutex-Next w =
      write_mutexes-Next t (set_last_waiting w (s.tcb t).mutexes) s
        (λ h k. omega (arith, entries-set_last_waiting k w (s.tcb t).mutexes, v.locks.listed t k h))
        (λ h. All-set_last_waiting s.mutexes w (s.tcb t).mutexes (v.locks.allocated t h)) v

  -- A thread may list a mutex once more if it owns it or waits on it once more.
  pub add_mutex-Next :
      (m : ℕ) (w : Bool)
      → m < s.mutexes
      → (t < s.tcbs
          → entries m (s.tcb t).mutexes + 1 ≤ owns t (s.mutex m).owner + queued t (s.mutex m))
      → Next s (add_mutex t m w s)
  unfolding add_mutex
  add_mutex-Next m w hm h =
      write_mutexes-Next t ((s.tcb t).mutexes ++ i ∷ []) s more
        (λ l.
          All-append (λ i. i.mutex < s.mutexes) (s.tcb t).mutexes (i ∷ []) (v.locks.allocated t l)
            (hm, tt))
        v
    where
      i : MutexInfo
      i = record { mutex = m; waiting = w }

      more :
          t < s.tcbs
          → (k : ℕ)
          → entries k ((s.tcb t).mutexes ++ i ∷ [])
            ≤ owns t (s.mutex k).owner + queued t (s.mutex k)
      more l k = elim (eq_cases k m) [
        | inl e ↦ rw e (ground (arith, entries-append m (s.tcb t).mutexes (i ∷ []), h l))
        | inr e ↦ ground (arith, entries-append k (s.tcb t).mutexes (i ∷ []), v.locks.listed t k l)
      ]

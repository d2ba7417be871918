-- ===== src/Safety/Create.antt =====
-- UtilityFunctions.cpp: new threads and mutexes, and the invariant.
use project.Prelude.{
  ℕ, ◌+◌, ◌≤◌, ◌<◌, ◌≡◌, refl, Bool, Option, none, some, List, [], ◌∷◌, ◌++◌, arith, All, All-mono,
  update-fresh,
}
use project.Vm.Data.{ThreadState, dead, running, ready, waiting, Entry, MutexInfo, ThreadStore}
use project.Vm.Schedule.{push_ready}
use project.Vm.Create.{new_tcb, insert_by, count_thread, insert_thread, new_mutex, insert_mutex}
use project.Safety.Inv.{
  Valid, Valid-le, Valid-push, ValidOwner, Ensures, Ensures-mono, Inv, IsFree, entries,
}
use project.Safety.Safe.{Next, Next-refl, Next-trans}
use project.Safety.Steps.{dead_list-Next, wait_list-Next, push_ready-Next}

ValidOwner-le : (n k : ℕ) (o : Option ℕ) → n ≤ k → ValidOwner n o → ValidOwner k o
ValidOwner-le n k none h v = tt
ValidOwner-le n k (some t) h v = omega arith

-- A list of mutexes has no entry for an object that is not allocated yet.
entries-fresh : (n : ℕ) (l : List MutexInfo) → All (λ i. i.mutex < n) l → entries n l ≡ 0
entries-fresh n [] h = refl
entries-fresh n (i ∷ l) h = ground (arith, entries-fresh n l h.1)

All-le :
    (n k : ℕ) (l : List MutexInfo) → n ≤ k → All (λ i. i.mutex < n) l → All (λ i. i.mutex < k) l
All-le n k l h = All-mono (λ i. i.mutex < n) (λ i. i.mutex < k) (λ i q. omega arith) l

module _ (s : ThreadStore) (v : Inv s) where
  -- A new thread has a priority in range.
  pub new_tcb-Next :
      (entry : Entry) (param memsize prio : ℕ)
      → 1 ≤ prio
      → prio ≤ 3
      → Next s (new_tcb entry param memsize prio s).0
  unfolding new_tcb
  new_tcb-Next entry param memsize prio lo hi = record {
    inv = record {
      priorities = record {
        at_most = λ t h. ground (arith, v.priorities.at_most t);
        at_least = λ t h k. ground (arith, v.priorities.at_least t);
      };
      lists = record {
        current = omega (arith, v.lists.current);
        ready = λ p. Valid-le s.tcbs (s.tcbs + 1) (s.ready_lists p) (omega arith) (v.lists.ready p);
        wait = Valid-le s.tcbs (s.tcbs + 1) s.wait_list (omega arith) v.lists.wait;
        buried = Valid-le s.tcbs (s.tcbs + 1) s.dead_list (omega arith) v.lists.buried;
        vector = v.lists.vector;
        idle_ready = v.lists.idle_ready;
      };
      locks = record {
        listed = λ t m h. ground (arith, v.locks.listed t m);
        allocated = λ t.
            update-fresh (λ b. All (λ i. i.mutex < s.mutexes) b.mutexes) s.tcb s.tcbs t _ tt
              (v.locks.allocated t);
        free = v.locks.free;
        owner = λ m h.
            ValidOwner-le s.tcbs (s.tcbs + 1) (s.mutex m).owner (omega arith) (v.locks.owner m h);
        waiters = λ m i h. Valid-le s.tcbs (s.tcbs + 1) _ (omega arith) (v.locks.waiters m i h);
      };
    };
    grows = record { threads = omega arith; mutexes = omega arith; fixed = λ t h. ground arith };
    current = refl;
  }

  pub new_mutex-Next : (garbage : Bool) → Next s (new_mutex garbage s).0
  unfolding new_mutex
  new_mutex-Next garbage = record {
    inv = record {
      priorities = record { at_most = v.priorities.at_most; at_least = v.priorities.at_least };
      lists = record {
        current = v.lists.current;
        ready = v.lists.ready;
        wait = v.lists.wait;
        buried = v.lists.buried;
        vector = Valid-le s.mutexes (s.mutexes + 1) s.mutex_vector (omega arith) v.lists.vector;
        idle_ready = v.lists.idle_ready;
      };
      locks = record {
        listed = λ t m h. ground (
          arith,
          v.locks.listed t m h,
          entries-fresh s.mutexes (s.tcb t).mutexes (v.locks.allocated t h),
        );
        allocated = λ t h.
            All-le s.mutexes (s.mutexes + 1) (s.tcb t).mutexes (omega arith)
              (v.locks.allocated t h);
        free = λ m.
            update-fresh (λ x. x.owner ≡ none → IsFree x) s.mutex s.mutexes m _
              (λ _. (refl, refl, refl)) (v.locks.free m);
        owner = λ m.
            update-fresh (λ x. ValidOwner s.tcbs x.owner) s.mutex s.mutexes m _ tt
              (v.locks.owner m);
        waiters = λ m i.
            update-fresh (λ x. Valid s.tcbs (x.priority_lists i)) s.mutex s.mutexes m _ tt
              (v.locks.waiters m i);
      };
    };
    grows = record {
      threads = omega arith;
      mutexes = omega arith;
      fixed = λ t h. record { id = refl; priority = refl; entry = refl };
    };
    current = refl;
  }

  pub insert_mutex-Next : (m : ℕ) → m < s.mutexes → Next s (insert_mutex m s)
  unfolding insert_mutex
  insert_mutex-Next m h = record {
    inv = record {
      priorities = record { at_most = v.priorities.at_most; at_least = v.priorities.at_least };
      lists = record {
        current = v.lists.current;
        ready = v.lists.ready;
        wait = v.lists.wait;
        buried = v.lists.buried;
        vector = Valid-push s.mutexes m s.mutex_vector v.lists.vector h;
        idle_ready = v.lists.idle_ready;
      };
      locks = record {
        listed = v.locks.listed;
        allocated = v.locks.allocated;
        free = v.locks.free;
        owner = v.locks.owner;
        waiters = v.locks.waiters;
      };
    };
    grows = record {
      threads = omega arith;
      mutexes = omega arith;
      fixed = λ t h. record { id = refl; priority = refl; entry = refl };
    };
    current = refl;
  }

  -- The fields that no part of the invariant is about.
  pub recount-Next :
      (all : List ℕ) (n : ℕ) → Next s (record s { all_threads = all; num_threads = n })
  recount-Next all n = record {
    inv = record {
      priorities = record { at_most = v.priorities.at_most; at_least = v.priorities.at_least };
      lists = record {
        current = v.lists.current;
        ready = v.lists.ready;
        wait = v.lists.wait;
        buried = v.lists.buried;
        vector = v.lists.vector;
        idle_ready = v.lists.idle_ready;
      };
      locks = record {
        listed = v.locks.listed;
        allocated = v.locks.allocated;
        free = v.locks.free;
        owner = v.locks.owner;
        waiters = v.locks.waiters;
      };
    };
    grows = record {
      threads = omega arith;
      mutexes = omega arith;
      fixed = λ t h. record { id = refl; priority = refl; entry = refl };
    };
    current = refl;
  }

insert_by-Next :
    (t : ℕ) (x : ThreadState) (s : ThreadStore)
    → Inv s
    → t < s.tcbs
    → Ensures (Next s) (insert_by t x s)
unfolding insert_by
insert_by-Next t dead s v h = dead_list-Next s v _ (Valid-push s.tcbs t _ v.lists.buried h)
insert_by-Next t running s v h = Next-refl s v
insert_by-Next t ready s v h = push_ready-Next s v t h
insert_by-Next t waiting s v h =
    let n = wait_list-Next s v _ (Valid-push s.tcbs t _ v.lists.wait h) in
    let s1 : ThreadStore = record s { wait_list = s.wait_list ++ t ∷ [] } in
    Ensures-mono (Next s1) (Next s) (λ u. Next-trans n) (push_ready t s1)
      (push_ready-Next s1 n.inv t h)

pub insert_thread-Next :
    (t : ℕ) (s : ThreadStore) → Inv s → t < s.tcbs → Ensures (Next s) (insert_thread t s)
unfolding insert_thread
insert_thread-Next t s v h =
    let n = recount-Next s v (s.all_threads ++ t ∷ []) s.num_threads in
    let s1 : ThreadStore = record s { all_threads = s.all_threads ++ t ∷ [] } in
    counted (insert_by t (s.tcb t).state s1) (
      Ensures-mono (Next s1) (Next s) (λ u. Next-trans n) (insert_by t (s.tcb t).state s1)
        (insert_by-Next t (s.tcb t).state s1 n.inv h))
  where
    counted : (o : Option ThreadStore) → Ensures (Next s) o → Ensures (Next s) (count_thread o)
    counted none e = e
    counted (some u) n = Next-trans n (recount-Next u n.inv u.all_threads _)

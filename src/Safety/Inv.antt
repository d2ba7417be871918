-- ===== src/Safety/Inv.antt =====
-- The invariant of the thread store.
use project.Prelude.{
  ℕ, ◌+◌, ◌≤◌, ◌<◌, ◌≡◌, Bool, false, Option, none, some, List, [], ◌∷◌, ◌++◌, arith, ◌==◌,
  if◌then◌else◌, update-cases, is_empty, All, All-append, count,
}
use project.Machine.Data.{Machine}
use project.Vm.Data.{MutexInfo, is_idle, Tcb, Mutex, ThreadStore}
use project.Vm.Tcb.{write_tcb}

-- All these objects are allocated.
abbrev pub Valid : ℕ → List ℕ → Type 0
Valid n ts = All (λ t. t < n) ts

abbrev pub ValidOwner : ℕ → Option ℕ → Type 0
ValidOwner n none = Unit {0}
ValidOwner n (some t) = t < n

abbrev pub Ensures : {A : Type 0} → (A → Type 0) → Option A → Type 0
Ensures P none = ⊥
Ensures P (some a) = P a

pub Ensures-mono :
    {A : Type 0} (P Q : A → Type 0)
    → ((a : A) → P a → Q a)
    → (o : Option A) → Ensures P o
    → Ensures Q o
Ensures-mono P Q f none h = h
Ensures-mono P Q f (some a) h = f a h

-- A thread has a ready list, and one that is not idle has a priority list in every mutex.
pub record Priorities (s : ThreadStore) : Type 0 where
  pub at_most : (t : ℕ) → t < s.tcbs → (s.tcb t).priority ≤ 3
  pub at_least :
      (t : ℕ) → t < s.tcbs → is_idle (s.tcb t).entry_function ≡ false → 1 ≤ (s.tcb t).priority

-- Every pointer of the store is allocated, and the idle thread never leaves its list.
pub record Lists (s : ThreadStore) : Type 0 where
  pub current : s.current_thread < s.tcbs
  pub ready : (p : ℕ) → Valid s.tcbs (s.ready_lists p)
  pub wait : Valid s.tcbs s.wait_list
  pub buried : Valid s.tcbs s.dead_list
  pub vector : Valid s.mutexes s.mutex_vector
  pub idle_ready : is_empty (s.ready_lists 0) ≡ false

-- How many entries of a thread's list are for the mutex.
abbrev pub entries : ℕ → List MutexInfo → ℕ
entries m [] = 0
entries m (i ∷ infos) = (if m == i.mutex then 1 else 0) + entries m infos

abbrev pub owns : ℕ → Option ℕ → ℕ
owns t none = 0
owns t (some o) = if t == o then 1 else 0

-- How often the thread stands in the priority lists of the mutex.
abbrev pub queued : ℕ → Mutex → ℕ
queued t x =
    count t (x.priority_lists 0) + count t (x.priority_lists 1) + count t (x.priority_lists 2)

abbrev pub IsFree : Mutex → Type 0
IsFree x = (x.priority_lists 0 ≡ []) × (x.priority_lists 1 ≡ []) × (x.priority_lists 2 ≡ [])

-- A thread lists a mutex only as often as it owns it and waits on it; nobody waits on a free mutex.
pub record Locks (s : ThreadStore) : Type 0 where
  pub listed :
      (t m : ℕ)
      → t < s.tcbs
      → entries m (s.tcb t).mutexes ≤ owns t (s.mutex m).owner + queued t (s.mutex m)
  pub allocated : (t : ℕ) → t < s.tcbs → All (λ i. i.mutex < s.mutexes) (s.tcb t).mutexes
  pub free : (m : ℕ) → m < s.mutexes → (s.mutex m).owner ≡ none → IsFree (s.mutex m)
  pub owner : (m : ℕ) → m < s.mutexes → ValidOwner s.tcbs (s.mutex m).owner
  pub waiters : (m i : ℕ) → m < s.mutexes → Valid s.tcbs ((s.mutex m).priority_lists i)

pub record Inv (s : ThreadStore) : Type 0 where
  pub priorities : Priorities s
  pub lists : Lists s
  pub locks : Locks s

-- A write that leaves a thread's priority, entry function and mutexes alone.
pub write_tcb-Inv :
    (t : ℕ) (b : Tcb) (s : ThreadStore)
    → b.priority ≡ (s.tcb t).priority
    → b.entry_function ≡ (s.tcb t).entry_function
    → b.mutexes ≡ (s.tcb t).mutexes
    → Inv s
    → Inv (write_tcb t b s)
write_tcb-Inv t b s p e q v = record {
  priorities = record {
    at_most = λ u h. ground (arith, v.priorities.at_most u h);
    at_least = λ u h k. ground (arith, v.priorities.at_least u h);
  };
  lists = record {
    current = v.lists.current;
    ready = v.lists.ready;
    wait = v.lists.wait;
    buried = v.lists.buried;
    vector = v.lists.vector;
    idle_ready = v.lists.idle_ready;
  };
  locks = record {
    listed = λ u m h. ground (arith, v.locks.listed u m h);
    allocated = λ u h.
        update-cases (λ b. All (λ i. i.mutex < s.mutexes) b.mutexes) s.tcb t u b
          (λ e. rw (q, e) (v.locks.allocated u h)) (v.locks.allocated u h);
    free = v.locks.free;
    owner = v.locks.owner;
    waiters = v.locks.waiters;
  };
}

-- New lists in the store.
pub relist-Inv :
    (c : ℕ) (r : ℕ → List ℕ) (w d : List ℕ) (s : ThreadStore)
    → c < s.tcbs
    → ((p : ℕ) → Valid s.tcbs (r p))
    → Valid s.tcbs w
    → Valid s.tcbs d
    → is_empty (r 0) ≡ false
    → Inv s
    → Inv (record s { current_thread = c; ready_lists = r; wait_list = w; dead_list = d })
relist-Inv c r w d s hc hr hw hd h0 v = record {
  priorities = record { at_most = v.priorities.at_most; at_least = v.priorities.at_least };
  lists = record {
    current = hc;
    ready = hr;
    wait = hw;
    buried = hd;
    vector = v.lists.vector;
    idle_ready = h0;
  };
  locks = record {
    listed = v.locks.listed;
    allocated = v.locks.allocated;
    free = v.locks.free;
    owner = v.locks.owner;
    waiters = v.locks.waiters;
  };
}

pub machine-Inv :
    (loaded : Bool) (m : Machine) (s : ThreadStore)
    → Inv s
    → Inv (record s { module_loaded = loaded; machine = m })
machine-Inv loaded m s v = record {
  priorities = record { at_most = v.priorities.at_most; at_least = v.priorities.at_least };
  lists = record {
    current = v.lists.current;
    ready = v.lists.ready;
    wait = v.lists.wait;
    buried = v.lists.buried;
    vector = v.lists.vector;
    idle_ready = v.lists.idle_ready;
  };
  locks = record {
    listed = v.locks.listed;
    allocated = v.locks.allocated;
    free = v.locks.free;
    owner = v.locks.owner;
    waiters = v.locks.waiters;
  };
}

pub Valid-push : (n t : ℕ) (ts : List ℕ) → Valid n ts → t < n → Valid n (ts ++ t ∷ [])
Valid-push n t ts h k = All-append (λ t. t < n) ts (t ∷ []) h (k, tt)

pub Valid-le : (n k : ℕ) (ts : List ℕ) → n ≤ k → Valid n ts → Valid k ts
Valid-le n k [] h v = tt
Valid-le n k (t ∷ ts) h v = (omega (arith, v.0), Valid-le n k ts h v.1)

-- ===== src/Safety/Safe.antt =====
-- What a computation over the thread store guarantees, and what it relies on while other threads run.
use project.Prelude.{ℕ, ◌≤◌, ◌<◌, ◌≡◌, refl, subst, ◌∙◌, arith}
use project.Vm.Data.{Tcb, ThreadStore}
use project.Vm.Run.{Run, done, switched, undefined, unfinished, aborted, M, bind}
use project.Safety.Inv.{Inv}

-- What no call changes in a thread.
pub record Fixed (b b' : Tcb) : Type 0 where
  pub id : b'.thread_id ≡ b.thread_id
  pub priority : b'.priority ≡ b.priority
  pub entry : b'.entry_function ≡ b.entry_function

-- No object goes away, and what is fixed in a thread stays.
pub record Grows (s s' : ThreadStore) : Type 0 where
  pub threads : s.tcbs ≤ s'.tcbs
  pub mutexes : s.mutexes ≤ s'.mutexes
  pub fixed : (t : ℕ) → t < s.tcbs → Fixed (s.tcb t) (s'.tcb t)

-- A step that does not switch threads.
pub record Next (s s' : ThreadStore) : Type 0 where
  pub inv : Inv s'
  pub grows : Grows s s'
  pub current : s'.current_thread ≡ s.current_thread

-- The thread `c` runs the computation from the store `base` on. It reaches no undefined behaviour;
-- whenever it hands the processor over, and when it ends, the invariant holds; and it ends in the
-- same thread. It relies on the same of the others.
abbrev pub Safe : {A : Type 0} → ℕ → (A → ThreadStore → Type 0) → ThreadStore → Run A → Type 0
Safe c Q base (done a s) = Inv s × Grows base s × (s.current_thread ≡ c) × Q a s
Safe c Q base (switched t s k) =
    Inv s
    × Grows base s
    × (t ≡ c)
    × ((s' : ThreadStore) → Inv s' → Grows s s' → s'.current_thread ≡ c → Safe c Q s' (k s'))
Safe c Q base undefined = ⊥
Safe c Q base unfinished = Unit
Safe c Q base aborted = Unit

-- Nothing more is said of the result.
abbrev pub Any : {A : Type 0} → A → ThreadStore → Type 0
Any a s = Unit {0}

pub Grows-refl : (s : ThreadStore) → Grows s s
Grows-refl s = record {
  threads = omega arith;
  mutexes = omega arith;
  fixed = λ t h. record { id = refl; priority = refl; entry = refl };
}

pub Grows-trans : {a b c : ThreadStore} → Grows a b → Grows b c → Grows a c
Grows-trans g h = record {
  threads = omega arith;
  mutexes = omega arith;
  fixed = λ t l.
      let f = g.fixed t l in
      let k = h.fixed t (omega arith) in
      record { id = k.id ∙ f.id; priority = k.priority ∙ f.priority; entry = k.entry ∙ f.entry };
}

pub Next-trans : {a b c : ThreadStore} → Next a b → Next b c → Next a c
Next-trans g h = record {
  inv = h.inv;
  grows = Grows-trans g.grows h.grows;
  current = h.current ∙ g.current;
}

pub Next-refl : (s : ThreadStore) → Inv s → Next s s
Next-refl s v = record { inv = v; grows = Grows-refl s; current = refl }

pub Next-le : {s s' : ThreadStore} {t : ℕ} → Next s s' → t < s.tcbs → t < s'.tcbs
Next-le n h = omega (arith, n.grows.threads)

module _ {A : Type 0} (c : ℕ) (Q : A → ThreadStore → Type 0) where
  -- A computation that starts after some steps.
  pub Safe-after : (a b : ThreadStore) (r : Run A) → Grows a b → Safe c Q b r → Safe c Q a r
  Safe-after a b (done x s) g (v, h, e, q) = (v, Grows-trans g h, e, q)
  Safe-after a b (switched t s k) g (v, h, e, q) = (v, Grows-trans g h, e, q)
  Safe-after a b undefined g h = h
  Safe-after a b unfinished g h = tt
  Safe-after a b aborted g h = tt

  pub Safe-done :
      {s s' : ThreadStore} (x : A)
      → Next s s'
      → s.current_thread ≡ c
      → Q x s'
      → Safe c Q s (done x s')
  Safe-done x n e q = (n.inv, n.grows, n.current ∙ e, q)

-- A computation that starts after a step.
pub Safe-Next :
    {A : Type 0} (Q : A → ThreadStore → Type 0) (s s' : ThreadStore) (r : Run A)
    → Next s s'
    → Safe s'.current_thread Q s' r
    → Safe s.current_thread Q s r
Safe-Next Q s s' r n h =
    Safe-after s.current_thread Q s s' r n.grows (subst (λ c. Safe c Q s' r) n.current h)

module _ {A B : Type 0} (c : ℕ) (P : A → ThreadStore → Type 0) (Q : B → ThreadStore → Type 0) where
  -- The continuation may use that the store has grown since the start.
  Safe-bind_from :
      (start base : ThreadStore) (r : Run A) (f : A → M B)
      → Grows start base
      → Safe c P base r
      → ((a : A) (s : ThreadStore)
          → Inv s
          → Grows start s
          → s.current_thread ≡ c
          → P a s
          → Safe c Q s (f a s))
      → Safe c Q base (bind r f)
  Safe-bind_from start base (done a s) f g (v, h, e, q) k =
      Safe-after c Q base s (f a s) h (k a s v (Grows-trans g h) e q)
  Safe-bind_from start base (switched t s rest) f g (v, h, e, q) k = (
    v,
    h,
    e,
    λ s' v' g' e'.
        Safe-bind_from start s' (rest s') f (Grows-trans g (Grows-trans h g')) (q s' v' g' e') k,
  )
  Safe-bind_from start base undefined f g h k = absurd h
  Safe-bind_from start base unfinished f g h k = tt
  Safe-bind_from start base aborted f g h k = tt

  pub Safe-bind :
      (start : ThreadStore) (r : Run A) (f : A → M B)
      → Safe c P start r
      → ((a : A) (s : ThreadStore)
          → Inv s
          → Grows start s
          → s.current_thread ≡ c
          → P a s
          → Safe c Q s (f a s))
      → Safe c Q start (bind r f)
  Safe-bind start r f = Safe-bind_from start start r f (Grows-refl start)

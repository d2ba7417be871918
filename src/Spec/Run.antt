-- ===== src/Spec/Run.antt =====
-- UtilityFunctions.cpp: the store at the moment at which an operation ends or switches threads.
use project.Prelude.{ℕ, List, [], ◌∷◌, Option, none, some}
use project.Vm.Data.{ThreadStore}
use project.Vm.Run.{Run, done, switched, undefined, unfinished, aborted}
use project.Safety.Safe.{Safe}

-- The operation has a result, or switches threads, in such a store.
abbrev pub At : {A : Type 0} → (ThreadStore → Type 0) → Run A → Type 0
At P (done a s) = P s
At P (switched t s k) = P s
At P undefined = ⊥
At P unfinished = ⊥
At P aborted = ⊥

-- The same, but nothing is said of an operation that does not get there.
abbrev pub Perhaps : {A : Type 0} → (ThreadStore → Type 0) → Run A → Type 0
Perhaps P (done a s) = P s
Perhaps P (switched t s k) = P s
Perhaps P undefined = Unit
Perhaps P unfinished = ⊥
Perhaps P aborted = ⊥

pub At-Safe :
    {A : Type 0} (P : ThreadStore → Type 0) (c : ℕ) (Q : A → ThreadStore → Type 0) (b : ThreadStore)
    (r : Run A)
    → Safe c Q b r
    → Perhaps P r
    → At P r
At-Safe P c Q b (done a s) h k = k
At-Safe P c Q b (switched t s rest) h k = k
At-Safe P c Q b undefined h k = absurd h
At-Safe P c Q b unfinished h k = k
At-Safe P c Q b aborted h k = k

pub Perhaps-mono :
    {A : Type 0} (P Q : ThreadStore → Type 0) (r : Run A)
    → ((s : ThreadStore) → P s → Q s)
    → Perhaps P r
    → Perhaps Q r
Perhaps-mono P Q (done a s) f h = f s h
Perhaps-mono P Q (switched t s k) f h = f s h
Perhaps-mono P Q undefined f h = tt
Perhaps-mono P Q unfinished f h = h
Perhaps-mono P Q aborted f h = h

abbrev pub Maybe : {A : Type 0} → (A → Type 0) → Option A → Type 0
Maybe P none = Unit
Maybe P (some a) = P a

abbrev pub first : List ℕ → Option ℕ
first [] = none
first (t ∷ ts) = some t

abbrev pub rest : List ℕ → List ℕ
rest [] = []
rest (t ∷ ts) = ts

pub At-mono :
    {A : Type 0} (P Q : ThreadStore → Type 0) (r : Run A)
    → ((s : ThreadStore) → P s → Q s)
    → At P r
    → At Q r
At-mono P Q (done a s) f h = f s h
At-mono P Q (switched t s k) f h = f s h
At-mono P Q undefined f h = h
At-mono P Q unfinished f h = h
At-mono P Q aborted f h = h

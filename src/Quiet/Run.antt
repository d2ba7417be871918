-- ===== src/Quiet/Run.antt =====
-- UtilityFunctions.cpp and VirtualMachine.cpp: a computation by what it does to the machine.
use project.Prelude.{ℕ, ◌≡◌, refl, sym, ap, subst, Bool, List}
use project.Machine.Data.{Machine}
use project.Vm.Data.{Mutex, ThreadStore}
use project.Vm.Run.{Run, done, switched, undefined, unfinished, aborted, M, bind}
use project.Spec.Run.{Perhaps}
use project.Vm.Data.{MutexInfo, ThreadState}
use project.Vm.Tcb.{write_mutexes, set_state}
use project.Spec.Kept.{Kept, io, write_mutexes-Kept, set_state-Kept}

-- The machine, and which threads wait for a reply.
abbrev pub View : Type 0
View = Machine × (ℕ → Bool)

abbrev pub view : ThreadStore → View
view s = (s.machine, io s)

-- At every switch and at the end both are as they were at the start, or when the thread came back.
abbrev pub Tame : {A : Type 0} → View → Run A → Type 0
Tame v (done a u) = view u ≡ v
Tame v (switched t u k) = (view u ≡ v) × ((w : ThreadStore) → Tame (view w) (k w))
Tame v undefined = Unit
Tame v unfinished = Unit
Tame v aborted = Unit

pub Tame-bind :
    {A B : Type 0} (v : View) (r : Run A) (f : A → M B)
    → Tame v r
    → ((a : A) (u : ThreadStore) → Tame (view u) (f a u))
    → Tame v (bind r f)
Tame-bind v (done a u) f h g = subst (λ x. Tame x (f a u)) h (g a u)
Tame-bind v (switched t u k) f (e, h) g = (e, λ w. Tame-bind (view w) (k w) f (h w) g)
Tame-bind v undefined f h g = tt
Tame-bind v unfinished f h g = tt
Tame-bind v aborted f h g = tt

-- Once the thread is back, nothing is left to do.
abbrev pub Returns : Run (Unit {0}) → Type 0
Returns (switched t u k) = (w : ThreadStore) → k w ≡ done tt w
Returns (done a s) = Unit
Returns undefined = Unit
Returns unfinished = Unit
Returns aborted = Unit

pub view-of : (s u : ThreadStore) → Kept s u → view u ≡ view s
view-of s u h = ap {A = (ℕ → Mutex) × Machine × (ℕ → Bool)} (λ k. (k.1, k.2)) h

pub Tame-of :
    (s : ThreadStore) (r : Run (Unit {0})) → Perhaps (Kept s) r → Returns r → Tame (view s) r
Tame-of s (done a u) h b = view-of s u h
Tame-of s (switched t u k) h b = (view-of s u h, λ w. subst (Tame (view w)) (sym (b w)) refl)
Tame-of s undefined h b = tt
Tame-of s unfinished h b = tt
Tame-of s aborted h b = tt

-- A write that leaves the traffic and the waiting threads alone, before or behind a computation.
pub Tame-from :
    {A : Type 0} (s u : ThreadStore) (r : Run A)
    → view u ≡ view s
    → Tame (view u) r
    → Tame (view s) r
Tame-from s u r e h = subst (λ v. Tame v r) e h

pub mutexes-view :
    (t : ℕ) (infos : List MutexInfo) (s : ThreadStore) → view (write_mutexes t infos s) ≡ view s
mutexes-view t infos s = view-of s (write_mutexes t infos s) (write_mutexes-Kept t infos s)

pub state-view : (t : ℕ) (x : ThreadState) (s : ThreadStore) → view (set_state t x s) ≡ view s
state-view t x s = view-of s (set_state t x s) (set_state-Kept t x s)

-- ===== src/Spec/Acquire.antt =====
-- VirtualMachine.cpp: what the answer of VMMutexAcquire says of the mutex.
use project.Prelude.{
  ℕ, ◌≡◌, refl, ap, subst, ◌≢◌, ◌⊎◌, inl, inr, Bool, true, false, Option, none, some, ◌==◌,
  if◌then◌else◌, Bool-cases, eq_of_==, get_elem?, ==_refl,
}
use project.Machine.Data.{SigSet}
use project.Vm.Data.{ThreadStore, failure, success, invalid_id}
use project.Vm.Run.{Run, done, switched, undefined, unfinished, aborted, M, bind}
use project.Vm.Locks.{lock}
use project.Vm.Threads.{find_mutex_by_id}
use project.Api.Call.{Reply, suspend, answer, is_thread}
use project.Api.Mutexes.{vm_mutex_acquire, check_owner, acquire_found}

-- Whatever the other threads do at the switches in between, the result and the store at the end are
-- such.
abbrev pub Always : {A : Type 0} → (A → ThreadStore → Type 0) → Run A → Type 0
Always Q (done a s) = Q a s
Always Q (switched t s k) = (u : ThreadStore) → Always Q (k u)
Always Q undefined = Unit
Always Q unfinished = Unit
Always Q aborted = Unit

pub Always-bind :
    {A B : Type 0} (Q : B → ThreadStore → Type 0) (r : Run A) (f : A → M B)
    → ((a : A) (s : ThreadStore) → Always Q (f a s))
    → Always Q (bind r f)
Always-bind Q (done a s) f h = h a s
Always-bind Q (switched t s k) f h = λ u. Always-bind Q (k u) f h
Always-bind Q undefined f h = tt
Always-bind Q unfinished f h = tt
Always-bind Q aborted f h = tt

-- The answer to the thread `c` where the object `m` was found, that was marked as deleted or not.
abbrev pub IsAnswered : ℕ → ℕ → Bool → Reply → ThreadStore → Type 0
IsAnswered c m true r u = r.status ≡ invalid_id
IsAnswered c m false r u =
    ((r.status ≡ success) × ((u.mutex m).owner ≡ some c))
    ⊎ ((r.status ≡ failure) × ((u.mutex m).owner ≢ some c))

abbrev pub IsAcquired : ℕ → ThreadStore → Option ℕ → Reply → ThreadStore → Type 0
IsAcquired c s none r u = r.status ≡ invalid_id
IsAcquired c s (some m) r u = IsAnswered c m (s.mutex m).deleted r u

is_thread-some : (c : ℕ) (o : Option ℕ) → is_thread c o ≡ true → o ≡ some c
is_thread-some c none e = cc
is_thread-some c (some o) e = ap some (eq_of_== o c e)

is_thread-other : (c : ℕ) (o : Option ℕ) → is_thread c o ≡ false → o ≢ some c
is_thread-other c o e =
    λ h. let k : (c == c) ≡ false = subst (λ x. is_thread c x ≡ false) h e in cc (k, ==_refl c)

check_owner-IsAnswered :
    (saved : SigSet) (m c : ℕ) (u : ThreadStore)
    → Always (IsAnswered c m false) (check_owner saved m c u)
unfolding check_owner answer
check_owner-IsAnswered saved m c u = elim (Bool-cases (is_thread c (u.mutex m).owner)) [
  | inl e ↦ rw e (inl (refl, is_thread-some c (u.mutex m).owner e))
  | inr e ↦ rw e (inr (refl, is_thread-other c (u.mutex m).owner e))
]

-- However often the call of VMMutexAcquire waits, and whatever the other threads do to the store while
-- it does: when it answers, the answer is that the identifier is invalid exactly where there was no
-- such mutex or it was marked as deleted; otherwise it is success and the caller owns the mutex, or it
-- is failure and the caller does not own it.
pub vm_mutex_acquire-IsAcquired :
    (id timeout : ℕ) (s : ThreadStore)
    → Always (IsAcquired s.current_thread s (find_mutex_by_id id s)) (vm_mutex_acquire id timeout s)
unfolding vm_mutex_acquire suspend find_mutex_by_id answer
vm_mutex_acquire-IsAcquired id timeout s = found (get_elem? s.mutex_vector id)
  where
    s1 : ThreadStore
    s1 = (suspend s).0

    saved : SigSet
    saved = (suspend s).1

    answered :
        (m : ℕ) (d : Bool)
        → Always (IsAnswered s.current_thread m d) (
            if d
            then answer saved invalid_id none s1
            else bind
                (lock m s.current_thread timeout s1)
                (λ _. check_owner saved m s.current_thread))
    answered m true = refl
    answered m false =
        Always-bind (IsAnswered s.current_thread m false) (lock m s.current_thread timeout s1) _
          λ a u. check_owner-IsAnswered saved m s.current_thread u

    found :
        (o : Option ℕ) → Always (IsAcquired s.current_thread s o) (acquire_found saved timeout o s1)
    found none = refl
    found (some m) = answered m (s.mutex m).deleted

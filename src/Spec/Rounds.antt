-- ===== src/Spec/Rounds.antt =====
-- UtilityFunctions.cpp: the rounds of the loop of TCB::releaseMutexes.
use project.Prelude.{
  ℕ, zero, suc, ◌≤◌, ◌≡◌, refl, sym, ap, subst, inl, inr, Option, none, some, List, [], ◌∷◌, arith,
  if◌then◌else◌, Bool-cases, update-cases, length, is_empty, ==_refl,
}
use project.Vm.Data.{MutexInfo, ThreadStore}
use project.Vm.Run.{Run, done, switched, undefined, unfinished, aborted, bind}
use project.Vm.Tcb.{remove_info, remove_mutex, write_mutexes}
use project.Vm.Locks.{
  write_mutex, set_owner, all_prios_empty, take_waiter, hand_over, release_to, release_from,
  release, release_first, release_mutexes,
}
use project.Spec.Listed.{Brief, hand_over-Brief}

-- How many mutexes a thread lists.
abbrev pub held : ℕ → ThreadStore → ℕ
held t s = length (s.tcb t).mutexes

-- The computation does not run out of fuel: the thread lists at most `m` mutexes at the end and `n`
-- at a switch, where those that run meanwhile add none.
abbrev pub Ends : ℕ → ℕ → ℕ → Run (Unit {0}) → Type 0
Ends t m n (done a s) = held t s ≤ m
Ends t m n (switched c s k) =
    (held t s ≤ n) × ((s' : ThreadStore) → held t s' ≤ held t s → Ends t m n (k s'))
Ends t m n undefined = Unit
Ends t m n unfinished = ⊥
Ends t m n aborted = Unit

module _ (t m n k : ℕ) (h : n ≤ k) where
  Ends-mono : (r : Run (Unit {0})) → Ends t m n r → Ends t m k r
  Ends-mono (done a s) e = e
  Ends-mono (switched c s rest) e = (omega (arith, e.0, h), λ s' l. Ends-mono (rest s') (e.1 s' l))
  Ends-mono undefined e = tt
  Ends-mono unfinished e = e
  Ends-mono aborted e = tt

  Ends-bind :
      (r : Run (Unit {0})) (f : ThreadStore → Run (Unit {0}))
      → Ends t n n r
      → ((s : ThreadStore) → held t s ≤ n → Ends t m k (f s))
      → Ends t m k (bind r (λ _. f))
  Ends-bind (done a s) f e g = g s e
  Ends-bind (switched c s rest) f e g =
      (omega (arith, e.0, h), λ s' l. Ends-bind (rest s') f (e.1 s' l) g)
  Ends-bind undefined f e g = tt
  Ends-bind unfinished f e g = e
  Ends-bind aborted f e g = tt

Brief-Ends :
    (t n : ℕ) (s : ThreadStore) (r : Run (Unit {0})) → held t s ≤ n → Brief s r → Ends t n n r
Brief-Ends t n s (done a u) h b = omega (arith, h, ap length (b t))
Brief-Ends t n s (switched c u k) h b = (
  omega (arith, h, ap length (b.0 t)),
  λ u' l. subst (Ends t n n) (sym (b.1 u')) (omega (arith, h, l, ap length (b.0 t))),
)
Brief-Ends t n s undefined h b = tt
Brief-Ends t n s unfinished h b = b
Brief-Ends t n s aborted h b = tt

length-remove_info : (m : ℕ) (l : List MutexInfo) → length (remove_info m l) ≤ length l
unfolding remove_info
length-remove_info m [] = omega arith
length-remove_info m (i ∷ l) = ground (arith, length-remove_info m l)

held-remove_mutex : (t o m : ℕ) (s : ThreadStore) → held t (remove_mutex o m s) ≤ held t s
unfolding remove_mutex write_mutexes
held-remove_mutex t o m s =
    update-cases (λ b. length b.mutexes ≤ held t s) s.tcb o t _
      (λ e. rw (sym e) (length-remove_info m (s.tcb o).mutexes)) (omega arith)

release-Ends : (t n m : ℕ) (s : ThreadStore) → held t s ≤ n → Ends t n n (release m s)
unfolding release set_owner
release-Ends t n m s h = from (s.mutex m).owner
  where
    given :
        (p : ℕ) (r : Option (ℕ × (ℕ → List ℕ))) (s' : ThreadStore)
        → held t s' ≤ n
        → Ends t n n (release_to m p r s')
    given p none s' k = tt
    given p (some (c, lists)) s' k =
        let s1 =
          write_mutex m (record (s'.mutex m) { owner = some c; priority_lists = lists }) s' in
        Brief-Ends t n s1 (hand_over p c s1) k (hand_over-Brief p c s1)

    from : (x : Option ℕ) → Ends t n n (release_from m x s)
    from none = tt
    from (some o) =
        let s' = remove_mutex o m s in
        let k : held t s' ≤ n = omega (arith, h, held-remove_mutex t o m s) in
        elim (Bool-cases (all_prios_empty (s'.mutex m).priority_lists)) [
          | inl e ↦ rw e k
          | inr e ↦ rw e (given (s.tcb o).priority (take_waiter 3 (s'.mutex m).priority_lists) s' k)
        ]

-- With as much fuel as a thread has entries in its list of mutexes, the loop that releases them does
-- not run out of it, and the list is empty at the end, provided that no thread that runs while the
-- loop is switched out adds an entry to that list.
pub release_mutexes-Ends :
    (fuel t : ℕ) (s : ThreadStore) → held t s ≤ fuel → Ends t 0 fuel (release_mutexes fuel t s)
unfolding release_mutexes write_mutexes
release_mutexes-Ends zero t s h = from (s.tcb t).mutexes refl
  where
    from :
        (l : List MutexInfo)
        → (s.tcb t).mutexes ≡ l
        → Ends t 0 0 (if is_empty (s.tcb t).mutexes then done tt s else unfinished)
    from [] e = rw e h
    from (i ∷ l) e = absurd (omega (arith, h, ap length e))
release_mutexes-Ends (suc fuel) t s h = first (s.tcb t).mutexes refl (release_mutexes-Ends fuel t)
  where
    first :
        (l : List MutexInfo)
        → (s.tcb t).mutexes ≡ l
        → ((s' : ThreadStore) → held t s' ≤ fuel → Ends t 0 fuel (release_mutexes fuel t s'))
        → Ends t 0 (suc fuel) (release_first t l (release_mutexes fuel t) s)
    first [] e rest = omega (arith, ap length e)
    first (i ∷ l) e rest =
        let s' = write_mutexes t l s in
        Ends-bind t 0 fuel (suc fuel) (omega arith) (release i.mutex s') (release_mutexes fuel t)
          (release-Ends t fuel i.mutex s' (rw (==_refl t) (omega (arith, h, ap length e))))
          (λ u k. Ends-mono t 0 fuel (suc fuel) (omega arith) (release_mutexes fuel t u) (rest u k))

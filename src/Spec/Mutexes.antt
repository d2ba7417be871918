-- ===== src/Spec/Mutexes.antt =====
-- UtilityFunctions.cpp: the order in which Mutex::release serves the threads that wait.
use project.Prelude.{
  ℕ, ◌<◌, ◌≡◌, refl, sym, ap, ◌∙◌, ◌≢◌, inl, inr, true, ◌&&◌, Option, none, some, List, [], ◌∷◌,
  ◌++◌, Bool-cases, is_empty, update_self,
}
use project.Vm.Data.{ThreadStore, Mutex}
use project.Vm.Tcb.{remove_mutex, write_mutexes}
use project.Vm.Locks.{
  set_owner, all_prios_empty, take_waiter, release_to, release_from, release, write_mutex,
  hand_over,
}
use project.Safety.Inv.{Inv}
use project.Safety.Safe.{Any}
use project.Safety.Release.{release-Safe}
use project.Spec.Run.{At, At-Safe, Perhaps, Perhaps-mono, first, rest}
use project.Spec.Kept.{Kept, hand_over-Kept}

-- The threads that wait for a mutex, as one queue: the higher priority first, and within a priority
-- in the order of arrival.
unfoldable pub waiters : (ℕ → List ℕ) → List ℕ
waiters lists = lists 2 ++ (lists 1 ++ lists 0)

abbrev pub uncons : List ℕ → Option (ℕ × List ℕ)
uncons [] = none
uncons (t ∷ ts) = some (t, ts)

abbrev pub as_queue : Option (ℕ × (ℕ → List ℕ)) → Option (ℕ × List ℕ)
as_queue none = none
as_queue (some (t, lists)) = some (t, waiters lists)

-- For any three priority lists, the loop of `release` over them takes the first thread of the queue
-- and leaves the rest of the queue; where the queue is empty, which `release` excludes, `take_waiter`
-- gives none.
pub take_waiter-waiters :
    (lists : ℕ → List ℕ) → as_queue (take_waiter 3 lists) ≡ uncons (waiters lists)
unfolding take_waiter waiters
take_waiter-waiters lists = from (lists 2) (lists 1) (lists 0) refl refl refl
  where
    from :
        (a b c : List ℕ)
        → lists 2 ≡ a
        → lists 1 ≡ b
        → lists 0 ≡ c
        → as_queue (take_waiter 3 lists) ≡ uncons (lists 2 ++ (lists 1 ++ lists 0))
    from (t ∷ a) b c x y z = rw x
    from [] (t ∷ b) c x y z = rw (x, y, x)
    from [] [] (t ∷ c) x y z = rw (x, y, z, x, y)
    from [] [] [] x y z = rw (x, y, z)

uncons-some : (l : List ℕ) (t : ℕ) (ts : List ℕ) → some (t, ts) ≡ uncons l → l ≡ t ∷ ts
uncons-some [] t ts h = cc
uncons-some (u ∷ us) t ts h = cc

waiters-empty : (lists : ℕ → List ℕ) → all_prios_empty lists ≡ true → waiters lists ≡ []
unfolding all_prios_empty waiters
waiters-empty lists h = from (lists 2) (lists 1) (lists 0) h
  where
    from : (a b c : List ℕ) → (is_empty c && is_empty b && is_empty a) ≡ true → a ++ (b ++ c) ≡ []
    from [] [] [] h = refl
    from (t ∷ a) [] [] h = cc
    from (t ∷ a) (v ∷ b) [] h = cc
    from (t ∷ a) b (u ∷ c) h = cc
    from [] (t ∷ b) [] h = cc
    from [] b (u ∷ c) h = cc

-- Mutex `m` has been given to the first of a queue, and the rest still waits for it.
abbrev pub IsServed : ℕ → List ℕ → ThreadStore → Type 0
IsServed m queue u =
    ((u.mutex m).owner ≡ first queue) × (waiters (u.mutex m).priority_lists ≡ rest queue)

-- In a store with the invariant, the release of an allocated mutex that has an owner gives it to the first of the
-- queue of its waiters and takes that thread off the queue; with nobody in the queue the mutex is
-- free. This holds when the release ends or switches threads, whichever comes first.
pub release-IsServed :
    (m : ℕ) (s : ThreadStore)
    → Inv s
    → m < s.mutexes
    → (s.mutex m).owner ≢ none
    → At (IsServed m (waiters (s.mutex m).priority_lists)) (release m s)
unfolding release remove_mutex write_mutexes set_owner
release-IsServed m s v hm ho =
    At-Safe (IsServed m (waiters lists)) s.current_thread Any s (release m s)
      (release-Safe m s v hm ho) (from (s.mutex m).owner refl)
  where
    lists : ℕ → List ℕ
    lists = (s.mutex m).priority_lists

    served :
        (p t : ℕ) (l : ℕ → List ℕ) (s' : ThreadStore)
        → waiters lists ≡ t ∷ waiters l
        → Perhaps (IsServed m (waiters lists)) (
            hand_over p t
              (write_mutex m (record (s.mutex m) { owner = some t; priority_lists = l }) s'))
    served p t l s' e =
        let x : Mutex = record (s.mutex m) { owner = some t; priority_lists = l } in
        let s1 = write_mutex m x s' in
        let self = update_self s'.mutex m x in
        Perhaps-mono (Kept s1) (IsServed m (waiters lists)) (hand_over p t s1)
          (λ u h. (
            ap (λ f. (f.0 m).owner) h ∙ ap (λ y. y.owner) self ∙ sym (ap first e),
            ap (λ f. waiters (f.0 m).priority_lists) h
                ∙ ap (λ y. waiters y.priority_lists) self
                ∙ sym (ap rest e),
          ))
          (hand_over-Kept p t s1)

    given :
        (p : ℕ) (r : Option (ℕ × (ℕ → List ℕ))) (s' : ThreadStore)
        → s'.mutex ≡ s.mutex
        → as_queue r ≡ uncons (waiters lists)
        → Perhaps (IsServed m (waiters lists)) (release_to m p r s')
    given p none s' same h = tt
    given p (some (t, l)) s' same h =
        rw (ap (λ f. f m) same) (served p t l s' (uncons-some (waiters lists) t (waiters l) h))

    from :
        (x : Option ℕ)
        → (s.mutex m).owner ≡ x
        → Perhaps (IsServed m (waiters lists)) (release_from m x s)
    from none e = absurd (ho e)
    from (some o) e = elim (Bool-cases (all_prios_empty lists)) [
      | inl empty ↦
          rw
            (
              empty,
              update_self s.mutex m (record (s.mutex m) { owner = none }),
              waiters-empty lists empty,
            )
            (refl, refl)
      | inr busy ↦ rw busy (
          given (s.tcb o).priority (take_waiter 3 lists) (remove_mutex o m s) refl
            (take_waiter-waiters lists))
    ]

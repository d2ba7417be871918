-- ===== src/Safety/Release.antt =====
-- UtilityFunctions.cpp: safety of Mutex::release and TCB::releaseMutexes.
use project.Prelude.{
  ℕ, zero, suc, ◌≤◌, ◌<◌, ◌≡◌, refl, ap, subst, ◌≢◌, inl, inr, true, Option, none, some, List, [],
  ◌∷◌, arith, ltb, Bool-cases, is_empty, All,
}
use project.Vm.Data.{MutexInfo, Mutex, ThreadStore}
use project.Vm.Tcb.{set_state, sleep, remove_mutex, write_mutexes}
use project.Vm.Locks.{
  write_mutex, set_owner, all_prios_empty, take_waiter, hand_over, release_to, release_from,
  release, release_first, release_mutexes,
}
use project.Safety.Inv.{Ensures, Inv, entries, queued}
use project.Safety.Safe.{Grows-refl, Next, Next-le, Next-trans, Safe, Any, Safe-Next, Safe-bind}
use project.Safety.Steps.{set_state-Next, sleep-Next}
use project.Safety.Wait.{remove_from_waitlist_early-Safe, schedule_thread_early-Safe}
use project.Safety.Entries.{
  entries-remove_info, queued-IsFree, IsFree-all_prios_empty, Taken, take_waiter-Taken,
}
use project.Safety.Mutexes.{write_mutex-Next, write_mutexes-Next, remove_mutex-Next}

pub hand_over-Safe :
    (p t : ℕ) (s : ThreadStore) → Inv s → t < s.tcbs → Safe s.current_thread Any s (hand_over p t s)
unfolding hand_over
hand_over-Safe p t s v h =
    let n = sleep-Next t s v 0 in
    let s1 = sleep t 0 s in
    let k = Next-trans n (set_state-Next t s1 n.inv (s.tcb t).state) in
    let s2 = set_state t (s.tcb t).state s1 in
    elim (Bool-cases (ltb p (s2.tcb t).priority)) [
      | inl e ↦ rw e (Safe-Next Any s s2 _ k (schedule_thread_early-Safe t s2 k.inv (Next-le k h)))
      | inr e ↦
          rw e (Safe-Next Any s s2 _ k (remove_from_waitlist_early-Safe t s2 k.inv (Next-le k h)))
    ]

-- Once the owner has dropped its entry, every thread lists the mutex only as often as it waits.
listed-remove_mutex :
    (m o : ℕ) (s : ThreadStore)
    → Inv s
    → (s.mutex m).owner ≡ some o
    → (t : ℕ) → t < s.tcbs
    → entries m ((remove_mutex o m s).tcb t).mutexes ≤ queued t (s.mutex m)
unfolding remove_mutex write_mutexes
listed-remove_mutex m o s v e t h =
    ground (arith, v.locks.listed t m h, entries-remove_info m (s.tcb o).mutexes)

-- The mutex goes to its first waiter, or to nobody: either way no thread lists it too often.
module _ (m o : ℕ) (s : ThreadStore) (v : Inv s) (hm : m < s.mutexes)
    (e : (s.mutex m).owner ≡ some o) where
  freed-Next :
      all_prios_empty (s.mutex m).priority_lists ≡ true
      → Next s (set_owner m none (remove_mutex o m s))
  unfolding set_owner remove_mutex write_mutexes
  freed-Next empty =
      let n = remove_mutex-Next o s v m in
      Next-trans n (
        write_mutex-Next m (record (s.mutex m) { owner = none }) (remove_mutex o m s)
          (record {
            listed = λ t h. omega (arith, listed-remove_mutex m o s v e t h);
            free = λ _. IsFree-all_prios_empty (s.mutex m) empty;
            owner = tt;
            waiters = λ i. v.locks.waiters m i hm;
          })
          n.inv)

  given : ℕ → (ℕ → List ℕ) → Mutex
  given t lists = record (s.mutex m) { owner = some t; priority_lists = lists }

  given-Next :
      (t : ℕ) (lists : ℕ → List ℕ)
      → Taken s.tcbs (s.mutex m).priority_lists (t, lists)
      → Next s (write_mutex m (given t lists) (remove_mutex o m s))
  unfolding given remove_mutex write_mutexes
  given-Next t lists (same, ht, hl) =
      let n = remove_mutex-Next o s v m in
      Next-trans n (
        write_mutex-Next m (given t lists) (remove_mutex o m s)
          (record {
            listed = λ u h. omega (arith, same u, listed-remove_mutex m o s v e u h);
            free = λ never. cc;
            owner = ht;
            waiters = hl;
          })
          n.inv)

  released-Safe :
      (p : ℕ) (r : Option (ℕ × (ℕ → List ℕ)))
      → Ensures (Taken s.tcbs (s.mutex m).priority_lists) r
      → Safe s.current_thread Any s (release_to m p r (remove_mutex o m s))
  unfolding given remove_mutex write_mutexes
  released-Safe p none h = h
  released-Safe p (some (t, lists)) h =
      let n = given-Next t lists h in
      Safe-Next Any s (write_mutex m (given t lists) (remove_mutex o m s)) _ n
        (hand_over-Safe p t _ n.inv h.1)

pub release-Safe :
    (m : ℕ) (s : ThreadStore)
    → Inv s
    → m < s.mutexes
    → (s.mutex m).owner ≢ none
    → Safe s.current_thread Any s (release m s)
unfolding release remove_mutex write_mutexes
release-Safe m s v hm ho = from (s.mutex m).owner refl
  where
    lists : ℕ → List ℕ
    lists = (s.mutex m).priority_lists

    from : (x : Option ℕ) → (s.mutex m).owner ≡ x → Safe s.current_thread Any s (release_from m x s)
    from none e = absurd (ho e)
    from (some o) e = elim (Bool-cases (all_prios_empty lists)) [
      | inl empty ↦
          rw empty (let n = freed-Next m o s v hm e empty in (n.inv, n.grows, n.current, tt))
      | inr busy ↦ rw busy (
          released-Safe m o s v hm e (s.tcb o).priority (take_waiter 3 lists)
            (take_waiter-Taken s.tcbs lists (λ j. v.locks.waiters m j hm) busy))
    ]

-- The thread at the front of the list has an owner or waits: the mutex is not free.
listed-owner :
    (m : ℕ) (s : ThreadStore) (t : ℕ)
    → Inv s
    → m < s.mutexes
    → t < s.tcbs
    → 0 < entries m (s.tcb t).mutexes
    → (s.mutex m).owner ≢ none
listed-owner m s t v hm ht h e =
    absurd
      (ground (arith, v.locks.listed t m ht, queued-IsFree t (s.mutex m) (v.locks.free m hm e)))

pub release_mutexes-Safe :
    (fuel t : ℕ) (s : ThreadStore)
    → Inv s
    → t < s.tcbs
    → Safe s.current_thread Any s (release_mutexes fuel t s)
unfolding release_mutexes write_mutexes
release_mutexes-Safe zero t s v h = elim (Bool-cases (is_empty (s.tcb t).mutexes)) [
  | inl e ↦ rw e (v, Grows-refl s, refl, tt)
  | inr e ↦ rw e tt
]
release_mutexes-Safe (suc fuel) t s v h = first (s.tcb t).mutexes refl (release_mutexes-Safe fuel t)
  where
    first :
        (l : List MutexInfo)
        → (s.tcb t).mutexes ≡ l
        → ((s' : ThreadStore)
            → Inv s'
            → t < s'.tcbs
            → Safe s'.current_thread Any s' (release_mutexes fuel t s'))
        → Safe s.current_thread Any s (release_first t l (release_mutexes fuel t) s)
    first [] e rest = (v, Grows-refl s, refl, tt)
    first (i ∷ infos) e rest =
        let n = shorter i infos e in
        let s1 = write_mutexes t infos s in
        Safe-Next Any s s1 _ n (
          Safe-bind s1.current_thread Any Any s1 (release i.mutex s1) _
            (release-Safe i.mutex s1 n.inv
              (subst (All (λ j. j.mutex < s.mutexes)) e (v.locks.allocated t h)).0
              (listed-owner i.mutex s t v
                (subst (All (λ j. j.mutex < s.mutexes)) e (v.locks.allocated t h)).0 h
                (rw e (ground arith))))
            λ _ u vu g c _.
              subst (λ d. Safe d Any u (release_mutexes fuel t u)) c
                (rest u vu (omega (arith, h, n.grows.threads, g.threads))))
      where
        shorter :
            (i : MutexInfo) (infos : List MutexInfo)
            → (s.tcb t).mutexes ≡ i ∷ infos
            → Next s (write_mutexes t infos s)
        shorter i infos e =
            write_mutexes-Next t infos s
              (λ _ m. ground (arith, ap (entries m) e, v.locks.listed t m h))
              (λ _. (subst (All (λ j. j.mutex < s.mutexes)) e (v.locks.allocated t h)).1) v

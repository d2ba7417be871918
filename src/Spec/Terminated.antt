-- ===== src/Spec/Terminated.antt =====
-- UtilityFunctions.cpp: a ready thread that another thread terminates.
use project.Prelude.{ℕ, zero, suc, ◌<◌, ◌≡◌, refl, ◌∙◌, false, some, [], ◌∷◌, ◌++◌, arith}
use project.Vm.Data.{dead, is_idle, priority_high, ThreadStore}
use project.Vm.Run.{done}
use project.Vm.Tcb.{set_state}
use project.Vm.Schedule.{are_all_lists_empty, schedule}
use project.Vm.Locks.{release_mutexes}
use project.Vm.Threads.{bury, terminate}
use project.Safety.Inv.{Inv, Valid-push}
use project.Safety.Safe.{Next-le}
use project.Safety.Steps.{set_state-Next, dead_list-Next}
use project.Spec.Run.{At, At-mono, first}
use project.Spec.Schedule.{candidates, schedule-first}

no_mutexes :
    (fuel t : ℕ) (s : ThreadStore) → (s.tcb t).mutexes ≡ [] → release_mutexes fuel t s ≡ done tt s
unfolding release_mutexes
no_mutexes zero t s e = rw e refl
no_mutexes (suc fuel) t s e = rw e refl

some-injective : {a b : ℕ} → some a ≡ some b → a ≡ b
some-injective e = cc

bury-first :
    (t : ℕ) (s : ThreadStore)
    → Inv s
    → t < s.tcbs
    → are_all_lists_empty s ≡ false
    → first (candidates 3 s.ready_lists) ≡ some t
    → At (λ u. u.current_thread ≡ t) (bury t s)
unfolding bury are_all_lists_empty set_state
bury-first t s v h busy e =
    let n = set_state-Next t s v dead in
    let s1 = set_state t dead s in
    let k =
      dead_list-Next s1 n.inv (s1.dead_list ++ t ∷ [])
        (Valid-push s1.tcbs t _ n.inv.lists.buried (Next-le n h)) in
    At-mono (λ u. some u.current_thread ≡ first (candidates 3 s.ready_lists))
      (λ u. u.current_thread ≡ t)
      (schedule priority_high (record s1 { dead_list = s1.dead_list ++ t ∷ [] }))
      (λ u x. some-injective (x ∙ e))
      (schedule-first 3 (record s1 { dead_list = s1.dead_list ++ t ∷ [] }) k.inv (omega arith)
        (rw busy refl))

-- In a store with the invariant, a thread that is not idle, has no mutex in its list and stands first
-- among the threads that are ready, the high priority first, is terminated: the processor is then
-- handed over to that very thread, since `terminate` leaves it in its ready list.
pub terminate-first :
    (fuel t : ℕ) (s : ThreadStore)
    → Inv s
    → t < s.tcbs
    → is_idle (s.tcb t).entry_function ≡ false
    → (s.tcb t).mutexes ≡ []
    → are_all_lists_empty s ≡ false
    → first (candidates 3 s.ready_lists) ≡ some t
    → At (λ u. u.current_thread ≡ t) (terminate fuel t s)
unfolding terminate
terminate-first fuel t s v h i m busy e = rw (i, no_mutexes fuel t s m) (bury-first t s v h busy e)

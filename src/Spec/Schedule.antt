-- ===== src/Spec/Schedule.antt =====
-- UtilityFunctions.cpp: which thread ThreadStore::schedule switches to.
use project.Prelude.{
  ℕ, zero, suc, ◌≤◌, ◌≡◌, refl, ap, ◌∙◌, inl, inr, false, ◌&&◌, Option, none, some, List, [], ◌∷◌,
  ◌++◌, arith, ◌==◌, Bool-cases, eq_of_==, or_else, ltb_of_lt,
}
use project.Vm.Data.{ThreadStore, is_running}
use project.Vm.Schedule.{
  take_front, scan, pick, switch_out, context_switch, switch_to_new_thread, are_all_lists_empty,
  switch_to_picked, schedule,
}
use project.Safety.Inv.{Inv}
use project.Safety.Schedule.{schedule-Safe}
use project.Safety.Safe.{Any}
use project.Spec.Run.{At, At-Safe, Perhaps, first}

-- The ready lists below a priority, the highest first.
abbrev pub below : ℕ → (ℕ → List ℕ) → List ℕ
below zero lists = []
below (suc i) lists = lists i ++ below i lists

-- The threads in the order in which `schedule` considers them.
unfoldable pub candidates : ℕ → (ℕ → List ℕ) → List ℕ
candidates p lists = lists p ++ below 4 lists

abbrev chosen : Option (ℕ × ThreadStore) → Option ℕ
chosen none = none
chosen (some (t, s)) = some t

or_take-first :
    (p : ℕ) (l r : List ℕ) (s : ThreadStore) (o : Option (ℕ × ThreadStore))
    → chosen o ≡ first r
    → chosen (or_else (take_front p l s) o) ≡ first (l ++ r)
unfolding take_front
or_take-first p [] r s o h = h
or_take-first p (t ∷ ts) r s o h = refl

scan-first :
    (n p : ℕ) (s : ThreadStore)
    → s.ready_lists p ≡ []
    → chosen (scan n p s) ≡ first (below n s.ready_lists)
unfolding scan
scan-first zero p s h = refl
scan-first (suc i) p s h = elim (Bool-cases (i == p)) [
  | inl e ↦ rw (e, ap s.ready_lists (eq_of_== i p e) ∙ h) (scan-first i p s h)
  | inr e ↦ rw e (
      or_take-first i (s.ready_lists i) (below i s.ready_lists) s (scan i p s) (scan-first i p s h))
]

pub pick-first :
    (p : ℕ) (s : ThreadStore) → p ≤ 3 → chosen (pick p s) ≡ first (candidates p s.ready_lists)
unfolding pick candidates take_front
pick-first p s h = rw (ltb_of_lt p 4 (omega (arith, h))) (from (s.ready_lists p) refl)
  where
    from :
        (l : List ℕ)
        → s.ready_lists p ≡ l
        → chosen (or_else (take_front p l s) (scan 4 p s)) ≡ first (l ++ below 4 s.ready_lists)
    from [] e = scan-first 4 p s e
    from (t ∷ ts) e = refl

switched-to :
    (c : ℕ) (o : Option (ℕ × ThreadStore)) (l : List ℕ)
    → chosen o ≡ first l
    → Perhaps (λ u. some u.current_thread ≡ first l) (switch_to_picked o)
unfolding switch_to_new_thread
switched-to c none l h = tt
switched-to c (some (t, s)) l h = go (switch_out s.current_thread _)
  where
    go :
        (o : Option ThreadStore)
        → Perhaps (λ u. some u.current_thread ≡ first l) (context_switch s.current_thread t o)
    go none = tt
    go (some u) = h

-- From a store with the invariant, unless the three lists of threads are empty and the current thread
-- is running, `schedule` with a priority up to 3 hands the processor to the first thread in the list of
-- that priority, or else to the first of the highest list that is not empty, the idle thread at last.
pub schedule-first :
    (p : ℕ) (s : ThreadStore)
    → Inv s
    → p ≤ 3
    → (are_all_lists_empty s && is_running (s.tcb s.current_thread).state) ≡ false
    → At (λ u. some u.current_thread ≡ first (candidates p s.ready_lists)) (schedule p s)
schedule-first p s v h e =
    At-Safe (λ u. some u.current_thread ≡ first (candidates p s.ready_lists)) s.current_thread Any s
      (schedule p s) (schedule-Safe p s v h)
      (unfold schedule in
        rw e (switched-to p (pick p s) (candidates p s.ready_lists) (pick-first p s h)))

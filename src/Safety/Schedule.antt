-- ===== src/Safety/Schedule.antt =====
-- UtilityFunctions.cpp: safety of the scheduler.
use project.Prelude.{
  ℕ, zero, suc, ◌≤◌, ◌<◌, ◌≡◌, refl, subst, ◌≢◌, inl, inr, Bool, ◌&&◌, Option, none, some, List, [],
  ◌∷◌, ◌++◌, arith, ltb, ◌==◌, Bool-cases, eq_cases, or_else,
}
use project.Vm.Data.{ThreadState, dead, running, ready, waiting, is_idle, is_running, ThreadStore}
use project.Vm.Tcb.{set_state}
use project.Vm.Schedule.{
  push_ready, take_front, scan, pick, requeue, switch_out, context_switch, switch_to_picked,
  switch_to_new_thread, are_all_lists_empty, schedule,
}
use project.Safety.Inv.{Valid, Valid-push, Ensures, Ensures-mono, Inv, relist-Inv}
use project.Safety.Safe.{
  Grows-refl, Next-le, Grows-trans, Next, Next-refl, Next-trans, Safe, Any, Safe-Next,
}
use project.Safety.Steps.{set_state-Next, ready-Next, wait_list-Next, push_ready-Next, relist-Grows}

abbrev Found : ThreadStore → ℕ × ThreadStore → Type 0
Found s r = Next s r.1 × (r.0 < r.1.tcbs)

or_take-Found :
    (p : ℕ) (l : List ℕ) (s : ThreadStore) (rest : Option (ℕ × ThreadStore))
    → Inv s
    → s.ready_lists p ≡ l
    → (l ≡ [] → Ensures (Found s) rest)
    → Ensures (Found s) (or_else (take_front p l s) rest)
unfolding take_front
or_take-Found p [] s rest v e r = r refl
or_take-Found p (t ∷ ts) s rest v e r =
    let ok : Valid s.tcbs (t ∷ ts) = subst (Valid s.tcbs) e (v.lists.ready p) in
    elim (Bool-cases (p == 0)) [
      | inl z ↦ rw z (Next-refl s v, ok.0)
      | inr z ↦ rw z (ready-Next s v p ts ok.1 (λ k. ground arith), ok.0)
    ]

idle_list : (s : ThreadStore) → Inv s → s.ready_lists 0 ≢ []
idle_list s v e = ground (arith, v.lists.idle_ready)

-- The loop finds a thread at the latest in the list of the idle thread.
scan-Found : (n p : ℕ) (s : ThreadStore) → Inv s → p ≢ 0 → 0 < n → Ensures (Found s) (scan n p s)
unfolding scan
scan-Found zero p s v np h = elim h [ ]
scan-Found (suc i) p s v np h = elim (Bool-cases (i == p)) [
  | inl e ↦ rw (e, Ensures) (scan-Found i p s v np (ground arith))
  | inr e ↦
      rw (e, Ensures)
        (or_take-Found i (s.ready_lists i) s (scan i p s) v refl λ empty. elim (eq_cases i 0) [
          | inl z ↦ absurd (idle_list s v (rw z at empty))
          | inr z ↦ scan-Found i p s v np (omega arith)
        ])
]

pub pick-Found : (p : ℕ) (s : ThreadStore) → Inv s → p ≤ 3 → Ensures (Found s) (pick p s)
unfolding pick
pick-Found p s v h = elim (Bool-cases (ltb p 4)) [
  | inl e ↦
      rw (e, Ensures)
        (or_take-Found p (s.ready_lists p) s (scan 4 p s) v refl λ empty. elim (eq_cases p 0) [
          | inl z ↦ absurd (idle_list s v (rw z at empty))
          | inr z ↦ scan-Found 4 p s v z (omega arith)
        ])
  | inr e ↦ absurd (ground arith)
]

pub requeue-Next :
    (t : ℕ) (x : ThreadState) (s : ThreadStore)
    → Inv s
    → t < s.tcbs
    → Ensures (Next s) (requeue t x s)
unfolding requeue
requeue-Next t waiting s v h =
    wait_list-Next s v (s.wait_list ++ t ∷ []) (Valid-push s.tcbs t _ v.lists.wait h)
requeue-Next t dead s v h = Next-refl s v
requeue-Next t ready s v h = push_ready-Next s v t h
requeue-Next t running s v h =
    let n = set_state-Next t s v ready in
    Ensures-mono (Next (set_state t ready s)) (Next s) (λ u. Next-trans n)
      (push_ready t (set_state t ready s))
      (push_ready-Next (set_state t ready s) n.inv t (Next-le n h))

switch_out-Next : (t : ℕ) (s : ThreadStore) → Inv s → t < s.tcbs → Ensures (Next s) (switch_out t s)
unfolding switch_out
switch_out-Next t s v h = elim (Bool-cases (is_idle (s.tcb t).entry_function)) [
  | inl e ↦ rw e (Next-refl s v)
  | inr e ↦ rw e (requeue-Next t (s.tcb t).state s v h)
]

pub switch_to_new_thread-Safe :
    (next : ℕ) (s : ThreadStore)
    → Inv s
    → next < s.tcbs
    → Safe s.current_thread Any s (switch_to_new_thread next s)
unfolding switch_to_new_thread
switch_to_new_thread-Safe next s v h =
    let n = set_state-Next next s v running in
    let s1 = set_state next running s in
    switched_out (switch_out s.current_thread s1) (
      Ensures-mono (Next s1) (Next s) (λ u. Next-trans n) (switch_out s.current_thread s1)
        (switch_out-Next s.current_thread s1 n.inv (Next-le n v.lists.current)))
  where
    switched_out :
        (o : Option ThreadStore)
        → Ensures (Next s) o
        → Safe s.current_thread Any s (context_switch s.current_thread next o)
    switched_out none e = e
    switched_out (some u) n = (
      relist-Inv next u.ready_lists u.wait_list u.dead_list u (Next-le n h) n.inv.lists.ready
          n.inv.lists.wait n.inv.lists.buried n.inv.lists.idle_ready n.inv,
      Grows-trans n.grows (relist-Grows next u.ready_lists u.wait_list u.dead_list u),
      refl,
      λ s' v' g e. (v', Grows-refl s', e, tt),
    )

pub schedule-Safe :
    (priority : ℕ) (s : ThreadStore)
    → Inv s
    → priority ≤ 3
    → Safe s.current_thread Any s (schedule priority s)
unfolding schedule
schedule-Safe priority s v h = elim (Bool-cases idles) [
  | inl e ↦ rw e (v, Grows-refl s, refl, tt)
  | inr e ↦ rw e (picked (pick priority s) (pick-Found priority s v h))
]
  where
    idles : Bool
    idles = are_all_lists_empty s && is_running (s.tcb s.current_thread).state

    picked :
        (o : Option (ℕ × ThreadStore))
        → Ensures (Found s) o
        → Safe s.current_thread Any s (switch_to_picked o)
    picked none e = e
    picked (some (next, u)) (n, l) =
        Safe-Next Any s u (switch_to_new_thread next u) n (switch_to_new_thread-Safe next u n.inv l)

-- ===== src/Safety/Entries.antt =====
-- How the lists of a thread's mutexes and of a mutex's threads count.
use project.Prelude.{
  ℕ, zero, suc, ◌+◌, ◌-◌, ◌≤◌, ◌<◌, ◌≡◌, refl, ap, subst, inl, inr, Bool, true, false, Option, some,
  List, [], ◌∷◌, ◌++◌, arith, ◌==◌, Bool-cases, update, update-cases, All, count, count-push,
}
use project.Vm.Data.{MutexInfo, Mutex}
use project.Vm.Tcb.{remove_info, set_last_waiting}
use project.Vm.Locks.{all_prios_empty, take_from, take_waiter, with_waiter}
use project.Safety.Inv.{Valid, Ensures, IsFree, entries, queued, owns}

pub entries-remove_info :
    (m : ℕ) (l : List MutexInfo) → entries m (remove_info m l) ≡ entries m l - 1
unfolding remove_info
entries-remove_info m [] = omega arith
entries-remove_info m (i ∷ l) = ground (arith, entries-remove_info m l)

pub entries-remove_info-le :
    (k m : ℕ) (l : List MutexInfo) → entries k (remove_info m l) ≤ entries k l
unfolding remove_info
entries-remove_info-le k m [] = omega arith
entries-remove_info-le k m (i ∷ l) = ground (arith, entries-remove_info-le k m l)

pub All-remove_info :
    (P : MutexInfo → Type 0) (m : ℕ) (l : List MutexInfo) → All P l → All P (remove_info m l)
unfolding remove_info
All-remove_info P m [] h = tt
All-remove_info P m (i ∷ l) h = elim (Bool-cases (i.mutex == m)) [
  | inl e ↦ rw e h.1
  | inr e ↦ rw e (h.0, All-remove_info P m l h.1)
]

pub entries-append : (m : ℕ) (l k : List MutexInfo) → entries m (l ++ k) ≡ entries m l + entries m k
entries-append m [] k = omega arith
entries-append m (i ∷ l) k = omega (arith, entries-append m l k)

pub entries-set_last_waiting :
    (m : ℕ) (w : Bool) (l : List MutexInfo) → entries m (set_last_waiting w l) ≡ entries m l
unfolding set_last_waiting
entries-set_last_waiting m w [] = refl
entries-set_last_waiting m w (i ∷ []) = refl
entries-set_last_waiting m w (i ∷ j ∷ l) = omega (arith, entries-set_last_waiting m w (j ∷ l))

pub All-set_last_waiting :
    (n : ℕ) (w : Bool) (l : List MutexInfo)
    → All (λ i. i.mutex < n) l
    → All (λ i. i.mutex < n) (set_last_waiting w l)
unfolding set_last_waiting
All-set_last_waiting n w [] h = tt
All-set_last_waiting n w (i ∷ []) h = h
All-set_last_waiting n w (i ∷ j ∷ l) h = (h.0, All-set_last_waiting n w (j ∷ l) h.1)

-- How often a thread stands in three lists.
abbrev pub queued_in : ℕ → (ℕ → List ℕ) → ℕ
queued_in t lists = count t (lists 0) + count t (lists 1) + count t (lists 2)

pub queued-IsFree : (t : ℕ) (x : Mutex) → IsFree x → queued t x ≡ 0
queued-IsFree t x (a, b, c) = rw (a, b, c)

pub IsFree-all_prios_empty : (x : Mutex) → all_prios_empty x.priority_lists ≡ true → IsFree x
unfolding all_prios_empty
IsFree-all_prios_empty x h = ground arith

-- The thread that is taken stood once more in the lists than in those that are left.
abbrev pub Taken : ℕ → (ℕ → List ℕ) → ℕ × (ℕ → List ℕ) → Type 0
Taken n lists r =
    ((u : ℕ) → queued_in u lists ≡ owns u (some r.0) + queued_in u r.1)
    × (r.0 < n)
    × ((i : ℕ) → Valid n (r.1 i))

queued_in-pop :
    (u i t : ℕ) (ts : List ℕ) (lists : ℕ → List ℕ)
    → i < 3
    → lists i ≡ t ∷ ts
    → queued_in u lists ≡ owns u (some t) + queued_in u (update lists i ts)
queued_in-pop u zero t ts lists h e = omega (arith, ap (count u) e)
queued_in-pop u (suc zero) t ts lists h e = omega (arith, ap (count u) e)
queued_in-pop u (suc (suc zero)) t ts lists h e = omega (arith, ap (count u) e)
queued_in-pop u (suc (suc (suc i))) t ts lists h e = absurd (omega arith)

take_from-Taken :
    (n i : ℕ) (lists : ℕ → List ℕ) (l : List ℕ) (rest : Option (ℕ × (ℕ → List ℕ)))
    → i < 3
    → ((j : ℕ) → Valid n (lists j))
    → lists i ≡ l
    → (l ≡ [] → Ensures (Taken n lists) rest)
    → Ensures (Taken n lists) (take_from i lists l rest)
take_from-Taken n i lists [] rest h v e r = r refl
take_from-Taken n i lists (t ∷ ts) rest h v e r =
    let ok : Valid n (t ∷ ts) = subst (Valid n) e (v i) in
    (
      λ u. queued_in-pop u i t ts lists h e,
      ok.0,
      λ j. update-cases (Valid n) lists i j ts (λ _. ok.1) (v j),
    )

-- Where someone waits, the loop finds a thread.
pub take_waiter-Taken :
    (n : ℕ) (lists : ℕ → List ℕ)
    → ((j : ℕ) → Valid n (lists j))
    → all_prios_empty lists ≡ false
    → Ensures (Taken n lists) (take_waiter 3 lists)
unfolding take_waiter
take_waiter-Taken n lists v h = take_from-Taken n 2 lists (lists 2) _ (omega arith) v refl λ e2.
    take_from-Taken n 1 lists (lists 1) _ (omega arith) v refl λ e1.
      take_from-Taken n 0 lists (lists 0) _ (omega arith) v refl
        λ e0. absurd (unfold all_prios_empty in cc (h, e0, e1, e2))

pub queued-with_waiter :
    (u t i : ℕ) (x : Mutex) → i < 3 → queued u (with_waiter x i t) ≡ owns u (some t) + queued u x
queued-with_waiter u t zero x h = omega (arith, count-push u t (x.priority_lists 0))
queued-with_waiter u t (suc zero) x h = omega (arith, count-push u t (x.priority_lists 1))
queued-with_waiter u t (suc (suc zero)) x h = omega (arith, count-push u t (x.priority_lists 2))
queued-with_waiter u t (suc (suc (suc i))) x h = absurd (omega arith)

-- ===== src/Spec/RoundTrip.antt =====
-- UtilityFunctions.cpp: a mutex that nobody holds, taken and given back.
use mathlib.Core.Path.{fun_ext}
use project.Prelude.{
  ℕ, ◌<◌, ◌≡◌, refl, sym, ap, ◌∙◌, inl, inr, true, false, Option, none, some, List, [], ◌∷◌, ◌++◌,
  arith, ◌==◌, Bool-cases, update, eq_of_==, update_self,
}
use project.Vm.Data.{MutexInfo, Tcb, Mutex, ThreadStore}
use project.Vm.Run.{done, bind}
use project.Vm.Tcb.{add_mutex, remove_info, remove_mutex, write_mutexes}
use project.Vm.Locks.{set_owner, all_prios_empty, release_from, release, lock}
use project.Safety.Inv.{Inv, IsFree, entries, owns}
use project.Safety.Entries.{queued-IsFree}

remove_info-last :
    (m : ℕ) (i : MutexInfo) (l : List MutexInfo)
    → entries m l ≡ 0
    → i.mutex ≡ m
    → remove_info m (l ++ i ∷ []) ≡ l
unfolding remove_info
remove_info-last m i [] h e = ground arith
remove_info-last m i (j ∷ l) h e = ground (arith, remove_info-last m i l (ground arith) e)

update_back {ℓ} :
    {A : Type ℓ} (f : ℕ → A) (k : ℕ) (v w : A) → f k ≡ w → update (update f k v) k w ≡ f
update_back f k v w h = fun_ext (λ i. elim (Bool-cases (k == i)) [
  | inl e ↦ rw e (sym h ∙ ap f (eq_of_== k i e))
  | inr e ↦ rw e refl
])

all_prios_empty-IsFree : (x : Mutex) → IsFree x → all_prios_empty x.priority_lists ≡ true
unfolding all_prios_empty
all_prios_empty-IsFree x (a, b, c) = rw (a, b, c)

release_from-free :
    (m o : ℕ) (s : ThreadStore)
    → all_prios_empty ((remove_mutex o m s).mutex m).priority_lists ≡ true
    → release_from m (some o) s ≡ done tt (set_owner m none (remove_mutex o m s))
release_from-free m o s h = rw h

module _ (m timeout : ℕ) (s : ThreadStore) (v : Inv s) (hm : m < s.mutexes)
    (e : (s.mutex m).owner ≡ none) where
  c : ℕ
  c = s.current_thread

  owned : Mutex
  owned = record (s.mutex m) { owner = some c }

  locked : ThreadStore
  unfolding set_owner add_mutex write_mutexes
  locked = add_mutex c m false (set_owner m (some c) s)

  holder : Tcb
  holder = record (s.tcb c) {
    mutexes = (s.tcb c).mutexes ++ record { mutex = m; waiting = false } ∷ [];
  }

  tcbs_back :
      update (update s.tcb c holder) c (record (update s.tcb c holder c) {
        mutexes = remove_info m (update s.tcb c holder c).mutexes;
      })
      ≡ s.tcb
  unfolding holder c
  tcbs_back = update_back s.tcb c holder _ (
      sym (
        ap {A = Tcb} (λ y. record y { mutexes = remove_info m y.mutexes })
          (update_self s.tcb c holder)
        ∙ ap {A = List MutexInfo} (λ l. record (s.tcb c) { mutexes = l })
            (remove_info-last m (record { mutex = m; waiting = false }) (s.tcb c).mutexes
              (ground (
                arith,
                v.locks.listed c m v.lists.current,
                queued-IsFree c (s.mutex m) (v.locks.free m hm e),
                ap (owns c) e,
              ))
              refl)))

  mutexes_back :
      update (update s.mutex m owned) m (record (update s.mutex m owned m) { owner = none })
      ≡ s.mutex
  unfolding owned
  mutexes_back = update_back s.mutex m owned _ (
      ap {A = Option ℕ} (λ o. record (s.mutex m) { owner = o }) e
      ∙ sym (ap {A = Mutex} (λ y. record y { owner = none }) (update_self s.mutex m owned)))

  lock-free : lock m c timeout s ≡ done tt locked
  unfolding lock locked c
  lock-free = rw e refl

  release-locked : release m locked ≡ done tt s
  unfolding release locked set_owner add_mutex write_mutexes remove_mutex holder owned
  release-locked =
      ap {A = Mutex} (λ y. release_from m y.owner locked) (update_self s.mutex m owned)
      ∙ release_from-free m c locked (
          ap {A = Mutex} (λ y. all_prios_empty y.priority_lists) (update_self s.mutex m owned)
          ∙ all_prios_empty-IsFree (s.mutex m) (v.locks.free m hm e))
      ∙ ap
          (λ f. done tt (record s {
            tcb = f;
            mutex =
                update (update s.mutex m owned) m
                  (record (update s.mutex m owned m) { owner = none });
          }))
          tcbs_back
      ∙ ap (λ f. done tt (record s { mutex = f })) mutexes_back

-- In a store with the invariant, to lock an allocated mutex that nobody holds, with any timeout, and
-- then to release it switches no thread and gives back the store as it was.
pub release-lock :
    (m timeout : ℕ) (s : ThreadStore)
    → Inv s
    → m < s.mutexes
    → (s.mutex m).owner ≡ none
    → bind (lock m s.current_thread timeout s) (λ _. release m) ≡ done tt s
unfolding c
release-lock m timeout s v hm e =
    ap (λ r. bind r (λ _. release m)) (lock-free m timeout s v hm e)
    ∙ release-locked m timeout s v hm e

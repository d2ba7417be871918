-- ===== src/Spec/Lookup.antt =====
-- UtilityFunctions.cpp: ThreadStore::findThreadByID.
use project.Prelude.{
  ℕ, ◌≡◌, inl, inr, not, ◌&&◌, Option, none, some, List, [], ◌∷◌, arith, ◌==◌, Bool-cases, eq_of_==,
  or_else,
}
use project.Vm.Data.{ThreadStore}
use project.Vm.Threads.{find_in, find_in_dead, find_thread_by_id}

-- What is found has the identifier.
abbrev Named : ℕ → ThreadStore → Option ℕ → Type 0
Named id s none = Unit {0}
Named id s (some t) = (s.tcb t).thread_id ≡ id

find_in-Named : (id : ℕ) (ts : List ℕ) (s : ThreadStore) → Named id s (find_in id ts s)
unfolding find_in
find_in-Named id [] s = tt
find_in-Named id (t ∷ ts) s = elim (Bool-cases ((s.tcb t).thread_id == id)) [
  | inl e ↦ rw e (eq_of_== (s.tcb t).thread_id id e)
  | inr e ↦ rw e (find_in-Named id ts s)
]

find_in_dead-Named : (id : ℕ) (ts : List ℕ) (s : ThreadStore) → Named id s (find_in_dead id ts s)
unfolding find_in_dead
find_in_dead-Named id [] s = tt
find_in_dead-Named id (t ∷ ts) s =
    elim (Bool-cases ((s.tcb t).thread_id == id && not (s.tcb t).deleted)) [
      | inl e ↦ rw e (ground arith)
      | inr e ↦ rw e (find_in_dead-Named id ts s)
    ]

or_else-Named :
    (id : ℕ) (s : ThreadStore) (x y : Option ℕ)
    → Named id s x
    → Named id s y
    → Named id s (or_else x y)
or_else-Named id s none y h k = k
or_else-Named id s (some t) y h k = h

-- Whatever thread the search by an identifier returns has that identifier.
find_thread_by_id-Named : (id : ℕ) (s : ThreadStore) → Named id s (find_thread_by_id id s)
unfolding find_thread_by_id
find_thread_by_id-Named id s = elim (Bool-cases ((s.tcb s.current_thread).thread_id == id)) [
  | inl e ↦ rw e (eq_of_== (s.tcb s.current_thread).thread_id id e)
  | inr e ↦ rw e (
      or_else-Named id s (find_in id (s.ready_lists 1) s) _ (find_in-Named id _ s) (
        or_else-Named id s (find_in id (s.ready_lists 2) s) _ (find_in-Named id _ s) (
          or_else-Named id s (find_in id (s.ready_lists 3) s) _ (find_in-Named id _ s) (
            or_else-Named id s (find_in id s.wait_list s) _ (find_in-Named id _ s)
              (find_in_dead-Named id s.dead_list s)))))
]

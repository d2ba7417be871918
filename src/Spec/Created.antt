-- ===== src/Spec/Created.antt =====
-- VirtualMachine.cpp: VMThreadCreate, and VMThreadState for the thread that it has created.
use project.Prelude.{
  ℕ, ◌+◌, ◌%◌, ◌<◌, ◌≡◌, refl, ap, ◌∙◌, inl, inr, true, false, not, ◌&&◌, Option, none, some, List,
  [], ◌∷◌, ◌++◌, arith, ◌==◌, Bool-cases, update, or_else, ==_refl, update_self,
}
use project.Machine.Signals.{suspend_signals, resume_signals}
use project.Vm.Data.{ThreadStore, Tcb, module_function, dead, success}
use project.Vm.Run.{done}
use project.Vm.Threads.{find_in, find_in_dead, find_thread_by_id}
use project.Vm.Create.{new_tcb, insert_thread, insert_by, first_state, stack_for}
use project.Api.Call.{suspend, answer}
use project.Api.Threads.{vm_thread_create, vm_thread_state}
use project.Safety.Inv.{Inv, Valid}
use project.Spec.Answers.{blocked, find_thread_by_id-blocked}

or_else-none : (x y : Option ℕ) → or_else x y ≡ none → (x ≡ none) × (y ≡ none)
or_else-none none y e = (refl, e)
or_else-none (some t) y e = absurd (cc)

-- The threads of a list are not the new one.
module _ (s s' : ThreadStore) (b : Tcb) (same : s'.tcb ≡ update s.tcb s.tcbs b) where
  old_tcb : (t : ℕ) → t < s.tcbs → s'.tcb t ≡ s.tcb t
  old_tcb t h = ap (λ f. f t) same ∙ ground (arith, h)

  find_in-old : (id : ℕ) (ts : List ℕ) → Valid s.tcbs ts → find_in id ts s' ≡ find_in id ts s
  unfolding find_in
  find_in-old id [] h = refl
  find_in-old id (t ∷ ts) h = rw (old_tcb t h.0, find_in-old id ts h.1)

  find_in-same :
      (id : ℕ) (ts us : List ℕ) → us ≡ ts → Valid s.tcbs ts → find_in id us s' ≡ find_in id ts s
  find_in-same id ts us e h = ap (λ l. find_in id l s') e ∙ find_in-old id ts h

  new_tcb-there : s'.tcb s.tcbs ≡ b
  new_tcb-there = ap (λ f. f s.tcbs) same ∙ update_self s.tcb s.tcbs b

  -- At the end of a list in which no thread has the identifier.
  find_in_dead-last :
      (id : ℕ) (ts : List ℕ)
      → Valid s.tcbs ts
      → find_in_dead id ts s ≡ none
      → b.thread_id ≡ id
      → b.deleted ≡ false
      → find_in_dead id (ts ++ s.tcbs ∷ []) s' ≡ some s.tcbs
  unfolding find_in_dead
  find_in_dead-last id [] h e i d = rw (new_tcb-there, i, ==_refl id, d) refl
  find_in_dead-last id (t ∷ ts) h e i d =
      elim (Bool-cases ((s.tcb t).thread_id == id && not (s.tcb t).deleted)) [
        | inl c ↦ absurd (some_none (rw c at e))
        | inr c ↦ rw (old_tcb t h.0, c) (find_in_dead-last id ts h.1 (rw c at e) i d)
      ]
    where
      some_none : some t ≡ none → ⊥
      some_none k = cc

  current_same :
      s'.current_thread ≡ s.current_thread
      → Inv s
      → s'.tcb s'.current_thread ≡ s.tcb s.current_thread
  current_same c v = ap (λ i. s'.tcb i) c ∙ old_tcb s.current_thread v.lists.current

  -- A new thread at the end of the dead list, under an identifier that no other has.
  found_last :
      (id : ℕ)
      → Inv s
      → find_thread_by_id id s ≡ none
      → b.thread_id ≡ id
      → b.deleted ≡ false
      → s'.current_thread ≡ s.current_thread
      → s'.ready_lists ≡ s.ready_lists
      → s'.wait_list ≡ s.wait_list
      → s'.dead_list ≡ s.dead_list ++ s.tcbs ∷ []
      → find_thread_by_id id s' ≡ some s.tcbs
  unfolding find_thread_by_id
  found_last id v e i d c r w k = elim (Bool-cases ((s.tcb s.current_thread).thread_id == id)) [
    | inl t ↦ absurd (some_none (rw t at e))
    | inr t ↦
        let (e1, f1) = or_else-none (find_in id (s.ready_lists 1) s) _ (rw t at e) in
        let (e2, f2) = or_else-none (find_in id (s.ready_lists 2) s) _ f1 in
        let (e3, f3) = or_else-none (find_in id (s.ready_lists 3) s) _ f2 in
        let (e4, f4) = or_else-none (find_in id s.wait_list s) _ f3 in
        rw
          (
            current_same c v,
            t,
            find_in-same id (s.ready_lists 1) (s'.ready_lists 1) (ap (λ g. g 1) r) (v.lists.ready 1)
                ∙ e1,
            find_in-same id (s.ready_lists 2) (s'.ready_lists 2) (ap (λ g. g 2) r) (v.lists.ready 2)
                ∙ e2,
            find_in-same id (s.ready_lists 3) (s'.ready_lists 3) (ap (λ g. g 3) r) (v.lists.ready 3)
                ∙ e3,
            find_in-same id s.wait_list s'.wait_list w v.lists.wait ∙ e4,
          )
          (ap (λ l. find_in_dead id l s') k
            ∙ find_in_dead-last id s.dead_list v.lists.buried f4 i d)
  ]
    where
      some_none : some s.current_thread ≡ none → ⊥
      some_none x = cc

-- From a store with the invariant in which no thread is found under the next identifier: VMThreadCreate
-- with a function of the module and a reference answers with success and with that identifier, and
-- VMThreadState for that identifier, called on the store that it leaves, answers with success and that
-- the thread is dead, and changes nothing.
pub create-state :
    (f param memsize prio : ℕ) (s : ThreadStore)
    → Inv s
    → find_thread_by_id ((s.num_threads + 1) % 4294967296) s ≡ none
    → (s' : ThreadStore) × (vm_thread_create (some (module_function f)) param memsize prio true s
        ≡ done (record { status = success; out = some ((s.num_threads + 1) % 4294967296) }) s')
      × (vm_thread_state ((s.num_threads + 1) % 4294967296) true s'
          ≡ done (record { status = success; out = some 0 }) s')
unfolding vm_thread_create vm_thread_state new_tcb insert_thread insert_by first_state stack_for
    suspend suspend_signals answer resume_signals blocked
create-state f param memsize prio s v e = (
  s',
  rw (update_self s.tcb s.tcbs thread) refl,
  rw (find_thread_by_id-blocked id s', found, update_self s.tcb s.tcbs thread) refl,
)
  where
    id : ℕ
    id = (s.num_threads + 1) % 4294967296

    thread : Tcb
    thread = record {
      thread_id = id;
      priority = prio;
      state = dead;
      entry_function = module_function f;
      entry_param = param;
      deleted = false;
      stack_base = memsize;
      stack_size = memsize;
      ticks_to_sleep = 0;
      waiting_on_io = false;
      file_io_result = 0;
      mutexes = [];
    }

    s' : ThreadStore
    s' = record s {
      tcb = update s.tcb s.tcbs thread;
      tcbs = s.tcbs + 1;
      all_threads = s.all_threads ++ s.tcbs ∷ [];
      dead_list = s.dead_list ++ s.tcbs ∷ [];
      num_threads = id;
    }

    found : find_thread_by_id id s' ≡ some s.tcbs
    found = found_last s s' thread refl id v e refl refl refl refl refl refl

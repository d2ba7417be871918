-- ===== src/Spec/Switch.antt =====
-- UtilityFunctions.cpp: what ThreadStore::switchToNewThread does with the two threads.
use project.Prelude.{
  ℕ, ◌≤◌, ◌≡◌, refl, ◌≢◌, false, [], ◌∷◌, ◌++◌, arith, ◌==◌, update, ==_refl, ltb_of_lt,
}
use project.Vm.Data.{ThreadState, dead, running, ready, waiting, ThreadStore, is_idle}
use project.Vm.Tcb.{set_state}
use project.Vm.Schedule.{push_ready, requeue, switch_out, context_switch, switch_to_new_thread}
use project.Spec.Run.{At}

-- The list that the thread that is switched out joins, by its state: the back of the ready list of its
-- priority, the back of the wait list, or none.
abbrev pub Queued : ThreadState → ℕ → ThreadStore → ThreadStore → Type 0
Queued dead c s u = (u.ready_lists ≡ s.ready_lists) × (u.wait_list ≡ s.wait_list)
Queued waiting c s u = (u.ready_lists ≡ s.ready_lists) × (u.wait_list ≡ s.wait_list ++ c ∷ [])
Queued _ c s u =
    (u.ready_lists
      ≡ update s.ready_lists (s.tcb c).priority (s.ready_lists (s.tcb c).priority ++ c ∷ []))
    × (u.wait_list ≡ s.wait_list)

abbrev pub state_after : ThreadState → ThreadState
state_after running = ready
state_after x = x

pub record IsSwitched (x : ThreadState) (next : ℕ) (s u : ThreadStore) : Type 0 where
  pub current : u.current_thread ≡ next
  pub runs : (u.tcb next).state ≡ running
  pub out : (u.tcb s.current_thread).state ≡ state_after x
  pub queued : Queued x s.current_thread s u

module _ (next : ℕ) (s : ThreadStore) (apart : s.current_thread ≢ next)
    (busy : is_idle (s.tcb s.current_thread).entry_function ≡ false)
    (small : (s.tcb s.current_thread).priority ≤ 3) where
  other : (next == s.current_thread) ≡ false
  other = ground (arith, apart)

  other_way : (s.current_thread == next) ≡ false
  other_way = ground (arith, apart)

  -- A thread that is not idle, and has a valid priority, is switched out for another: the other runs
  -- and is the current one; the first is put at the back of the ready list of its priority if it was
  -- running or ready, at the back of the wait list if it was waiting, and nowhere if it was dead; and
  -- it is ready then if it was running, and in the same state otherwise.
  pub switch_to_new_thread-IsSwitched :
      At (IsSwitched (s.tcb s.current_thread).state next s) (switch_to_new_thread next s)
  unfolding switch_to_new_thread switch_out set_state requeue push_ready
  switch_to_new_thread-IsSwitched = rw (other, busy) (from (s.tcb s.current_thread).state refl)
    where
      s' : ThreadStore
      s' = set_state next running s

      from :
          (x : ThreadState)
          → (s.tcb s.current_thread).state ≡ x
          → At
              (IsSwitched x next s)
              (context_switch s.current_thread next (requeue s.current_thread x s'))
      from dead e = record {
        current = refl;
        runs = rw (==_refl next) refl;
        out = rw other e;
        queued = (refl, refl);
      }
      from waiting e = record {
        current = refl;
        runs = rw (==_refl next) refl;
        out = rw other e;
        queued = (refl, refl);
      }
      from ready e =
          rw (other, ltb_of_lt (s.tcb s.current_thread).priority 4 (omega (arith, small)))
            (record {
              current = refl;
              runs = rw (==_refl next) refl;
              out = rw other e;
              queued = (refl, refl);
            })
      from running e =
          rw
            (
              ==_refl s.current_thread,
              other,
              ltb_of_lt (s.tcb s.current_thread).priority 4 (omega (arith, small)),
            )
            (record {
              current = refl;
              runs = rw (other_way, ==_refl next) refl;
              out = rw (==_refl s.current_thread) refl;
              queued = (refl, refl);
            })

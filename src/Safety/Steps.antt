-- ===== src/Safety/Steps.antt =====
-- The steps that do not switch threads: writes to a thread's fields and to the lists of the store.
use project.Prelude.{
  ℕ, ◌<◌, ◌≡◌, refl, subst, inl, inr, Bool, false, List, [], ◌∷◌, ◌++◌, arith, ltb, Bool-cases,
  update, update-cases, is_empty,
}
use project.Machine.Data.{Machine}
use project.Vm.Data.{ThreadState, Tcb, ThreadStore}
use project.Vm.Tcb.{
  write_tcb, set_state, sleep, set_is_deleted, set_file_io_result, set_is_waiting_on_io,
  decrement_ticks_to_sleep,
}
use project.Vm.Schedule.{push_ready}
use project.Safety.Inv.{Valid, Valid-push, Ensures, Inv, write_tcb-Inv, relist-Inv, machine-Inv}
use project.Safety.Safe.{Fixed, Grows, Next}

pub write_tcb-Grows :
    (t : ℕ) (b : Tcb) (s : ThreadStore) → Fixed (s.tcb t) b → Grows s (write_tcb t b s)
write_tcb-Grows t b s f = record {
  threads = omega arith;
  mutexes = omega arith;
  fixed = λ u h.
      update-cases (λ x. Fixed (s.tcb u) x) s.tcb t u b (λ e. subst (λ x. Fixed (s.tcb x) b) e f)
        (record { id = refl; priority = refl; entry = refl });
}

pub write_tcb-Next :
    (t : ℕ) (b : Tcb) (s : ThreadStore)
    → Fixed (s.tcb t) b
    → b.mutexes ≡ (s.tcb t).mutexes
    → Inv s
    → Next s (write_tcb t b s)
write_tcb-Next t b s f e v = record {
  inv = write_tcb-Inv t b s f.priority f.entry e v;
  grows = write_tcb-Grows t b s f;
  current = refl;
}

module _ (t : ℕ) (s : ThreadStore) (v : Inv s) where
  fixed : Fixed (s.tcb t) (s.tcb t)
  fixed = record { id = refl; priority = refl; entry = refl }

  pub set_state-Next : (x : ThreadState) → Next s (set_state t x s)
  unfolding set_state
  set_state-Next x =
      write_tcb-Next t _ s (record { id = refl; priority = refl; entry = refl }) refl v

  pub sleep-Next : (tick : ℕ) → Next s (sleep t tick s)
  unfolding sleep
  sleep-Next tick =
      write_tcb-Next t _ s (record { id = refl; priority = refl; entry = refl }) refl v

  pub set_is_deleted-Next : (d : Bool) → Next s (set_is_deleted t d s)
  unfolding set_is_deleted
  set_is_deleted-Next d =
      write_tcb-Next t _ s (record { id = refl; priority = refl; entry = refl }) refl v

  pub set_file_io_result-Next : (r : ℕ) → Next s (set_file_io_result t r s)
  unfolding set_file_io_result
  set_file_io_result-Next r =
      write_tcb-Next t _ s (record { id = refl; priority = refl; entry = refl }) refl v

  pub set_is_waiting_on_io-Next : (w : Bool) → Next s (set_is_waiting_on_io t w s)
  unfolding set_is_waiting_on_io
  set_is_waiting_on_io-Next w =
      write_tcb-Next t _ s (record { id = refl; priority = refl; entry = refl }) refl v

  pub decrement_ticks_to_sleep-Next : Next s (decrement_ticks_to_sleep t s)
  unfolding decrement_ticks_to_sleep
  decrement_ticks_to_sleep-Next =
      write_tcb-Next t _ s (record { id = refl; priority = refl; entry = refl }) refl v

-- New lists in the store.
pub relist-Grows :
    (c : ℕ) (r : ℕ → List ℕ) (w d : List ℕ) (s : ThreadStore)
    → Grows s (record s { current_thread = c; ready_lists = r; wait_list = w; dead_list = d })
relist-Grows c r w d s = record {
  threads = omega arith;
  mutexes = omega arith;
  fixed = λ t h. record { id = refl; priority = refl; entry = refl };
}

module _ (s : ThreadStore) (v : Inv s) where
  pub ready-Next :
      (p : ℕ) (l : List ℕ)
      → Valid s.tcbs l
      → (p ≡ 0 → is_empty l ≡ false)
      → Next s (record s { ready_lists = update s.ready_lists p l })
  ready-Next p l h h0 = record {
    inv =
        relist-Inv s.current_thread (update s.ready_lists p l) s.wait_list s.dead_list s
          v.lists.current
          (λ i. update-cases (Valid s.tcbs) s.ready_lists p i l (λ _. h) (v.lists.ready i))
          v.lists.wait v.lists.buried
          (update-cases (λ x. is_empty x ≡ false) s.ready_lists p 0 l h0 v.lists.idle_ready) v;
    grows = relist-Grows s.current_thread (update s.ready_lists p l) s.wait_list s.dead_list s;
    current = refl;
  }

  pub wait_list-Next : (l : List ℕ) → Valid s.tcbs l → Next s (record s { wait_list = l })
  wait_list-Next l h = record {
    inv =
        relist-Inv s.current_thread s.ready_lists l s.dead_list s v.lists.current v.lists.ready h
          v.lists.buried v.lists.idle_ready v;
    grows = relist-Grows s.current_thread s.ready_lists l s.dead_list s;
    current = refl;
  }

  pub dead_list-Next : (l : List ℕ) → Valid s.tcbs l → Next s (record s { dead_list = l })
  dead_list-Next l h = record {
    inv =
        relist-Inv s.current_thread s.ready_lists s.wait_list l s v.lists.current v.lists.ready
          v.lists.wait h v.lists.idle_ready v;
    grows = relist-Grows s.current_thread s.ready_lists s.wait_list l s;
    current = refl;
  }

  pub load-Next :
      (loaded : Bool) (m : Machine) → Next s (record s { module_loaded = loaded; machine = m })
  load-Next loaded m = record {
    inv = machine-Inv loaded m s v;
    grows = record {
      threads = omega arith;
      mutexes = omega arith;
      fixed = λ t h. record { id = refl; priority = refl; entry = refl };
    };
    current = refl;
  }

  pub machine-Next : (m : Machine) → Next s (record s { machine = m })
  machine-Next m = load-Next s.module_loaded m

  -- A thread's priority has a ready list.
  pub push_ready-Next : (t : ℕ) → t < s.tcbs → Ensures (Next s) (push_ready t s)
  unfolding push_ready
  push_ready-Next t h = elim (Bool-cases (ltb (s.tcb t).priority 4)) [
    | inl e ↦ rw e (
        ready-Next (s.tcb t).priority (s.ready_lists (s.tcb t).priority ++ t ∷ [])
          (Valid-push s.tcbs t _ (v.lists.ready _) h) (λ _. nonempty (s.ready_lists _)))
    | inr e ↦ absurd (ground (arith, v.priorities.at_most t h))
  ]
    where
      nonempty : (l : List ℕ) → is_empty (l ++ t ∷ []) ≡ false
      nonempty [] = refl
      nonempty (x ∷ l) = refl

-- ===== src/Spec/Sleep.antt =====
-- UtilityFunctions.cpp: one round of the loop of ThreadStore::timerEvent for a thread that sleeps.
use project.Prelude.{
  ℕ, suc, ◌≤◌, ◌<◌, ◌≡◌, refl, Bool, true, false, Option, some, [], ◌∷◌, ◌++◌, arith, ◌==◌, update,
  ==_refl, update_self, ltb_of_lt,
}
use project.Vm.Data.{ready, ThreadStore}
use project.Vm.Tcb.{set_state, decrement_ticks_to_sleep, is_waiting_on_mutex}
use project.Vm.Schedule.{push_ready}
use project.Vm.Timer.{check_mutex, tick_thread}

-- What one tick of the timer does for a thread of the wait list.
abbrev pub tick : ℕ → ThreadStore → Option (ThreadStore × Bool)
tick t s = tick_thread t (check_mutex t s)

-- A thread that waits for the time to pass alone.
pub record IsAsleep (k t : ℕ) (s : ThreadStore) : Type 0 where
  pub left : (s.tcb t).ticks_to_sleep ≡ k
  pub no_io : (s.tcb t).waiting_on_io ≡ false
  pub no_mutex : is_waiting_on_mutex t s ≡ false
  pub priority : (s.tcb t).priority ≤ 3

-- The thread is ready, and last in the list of its priority.
pub record IsReadied (t : ℕ) (s u : ThreadStore) : Type 0 where
  pub state : (u.tcb t).state ≡ ready
  pub listed : u.ready_lists (s.tcb t).priority ≡ s.ready_lists (s.tcb t).priority ++ t ∷ []

finite : (k : ℕ) → k < 4294967294 → (suc k == 4294967295) ≡ false
finite k h = ground arith

pub tick_down :
    (k t : ℕ) (s : ThreadStore)
    → IsAsleep (suc k) t s
    → k < 4294967294
    → tick t s ≡ some (decrement_ticks_to_sleep t s, true)
unfolding check_mutex tick_thread
tick_down k t s a h =
    rw (a.no_mutex, a.no_io, a.left, finite k h, ltb_of_lt 0 (suc k) (omega arith)) refl

pub wakes_now :
    (t : ℕ) (s : ThreadStore)
    → IsAsleep 0 t s
    → (u : ThreadStore) × (tick t s ≡ some (u, false)) × IsReadied t s u
unfolding check_mutex tick_thread push_ready set_state
wakes_now t s a = (
  record (set_state t ready s) {
    ready_lists =
        update s.ready_lists (s.tcb t).priority (s.ready_lists (s.tcb t).priority ++ t ∷ []);
  },
  rw (a.no_mutex, a.no_io, a.left)
      (rw (==_refl t, ltb_of_lt (s.tcb t).priority 4 (omega (arith, a.priority)))),
  record { state = rw (==_refl t); listed = update_self s.ready_lists (s.tcb t).priority _ },
)

-- ===== src/Safety/Calls/Common.antt =====
-- VirtualMachine.cpp: the beginning and the end that the calls share.
use project.Prelude.{ℕ, ◌≡◌, refl, subst, Option}
use project.Machine.Data.{SigSet}
use project.Machine.Signals.{suspend_signals, resume_signals}
use project.Vm.Data.{ThreadStore}
use project.Vm.Run.{Run, M, bind}
use project.Api.Call.{Reply, suspend, answer}
use project.Safety.Inv.{Inv}
use project.Safety.Safe.{Next, Safe, Any, Safe-Next, Safe-bind}
use project.Safety.Steps.{machine-Next}

-- The signal mask after the call.
abbrev pub Restores : SigSet → Reply → ThreadStore → Type 0
Restores mask r s = s.machine.mask ≡ mask

pub suspend-Next : (s : ThreadStore) → Inv s → Next s (suspend s).0
unfolding suspend
suspend-Next s v = machine-Next s v (suspend_signals s.machine).0

pub suspend_saves : (s : ThreadStore) → (suspend s).1 ≡ s.machine.mask
unfolding suspend suspend_signals
suspend_saves s = refl

module _ (saved : SigSet) (status : ℕ) (out : Option ℕ) where
  pub answer-Safe :
      (s : ThreadStore)
      → Inv s
      → Safe s.current_thread (Restores saved) s (answer saved status out s)
  unfolding answer resume_signals
  answer-Safe s v =
      let n = machine-Next s v (resume_signals saved s.machine) in (n.inv, n.grows, n.current, refl)

  -- An answer after a computation that may have switched threads.
  pub then_answer-Safe :
      {A : Type 0} (s : ThreadStore) (r : Run A)
      → Safe s.current_thread Any s r
      → Safe s.current_thread (Restores saved) s (bind r (λ _. answer saved status out))
  then_answer-Safe s r h = Safe-bind s.current_thread Any (Restores saved) s r _ h λ _ u v g c _.
      subst (λ d. Safe d (Restores saved) u (answer saved status out u)) c (answer-Safe u v)

-- A call that begins by suspending the signals.
pub suspended-Safe :
    (s : ThreadStore) (v : Inv s) (body : SigSet → M Reply)
    → ((u : ThreadStore)
        → Next s u
        → u.tcb ≡ s.tcb
        → Safe u.current_thread (Restores s.machine.mask) u (body s.machine.mask u))
    → Safe s.current_thread (Restores s.machine.mask) s (body (suspend s).1 (suspend s).0)
unfolding suspend suspend_signals
suspended-Safe s v body h =
    Safe-Next (Restores s.machine.mask) s (suspend s).0 _ (suspend-Next s v)
      (h _ (suspend-Next s v) refl)

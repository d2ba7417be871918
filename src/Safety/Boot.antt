-- ===== src/Safety/Boot.antt =====
-- VirtualMachine.cpp: the store as the module finds it.
use project.Prelude.{ℕ, zero, suc, refl, Bool, [], ◌∷◌, arith, update-cases}
use project.Machine.Data.{Machine}
use project.Machine.Signals.{enable_signals, request_alarm}
use project.Vm.Data.{Tcb, Mutex}
use project.Vm.Create.{
  first_state, stack_for, new_tcb, insert_by, insert_thread, new_thread_store, create_main_thread,
  create_idle_thread,
}
use project.Api.Start.{boot}
use project.Safety.Inv.{Valid, Ensures, Inv}

-- From a new thread store, the part of VMStart before the module runs creates both threads without an
-- index out of range, and the store that it leaves has the invariant.
pub boot-Inv :
    (tcb : ℕ → Tcb) (mutex : ℕ → Mutex) (current : ℕ) (loaded : Bool) (machine : Machine)
    (param tickms : ℕ)
    → Ensures Inv (boot param tickms (new_thread_store tcb mutex current loaded machine))
unfolding boot new_thread_store create_main_thread create_idle_thread new_tcb insert_thread
    insert_by first_state stack_for enable_signals request_alarm
boot-Inv tcb mutex current loaded machine param tickms = record {
  priorities = record {
    at_most = elim [
      | zero ↦ λ h. omega arith
      | suc zero ↦ λ h. omega arith
      | suc (suc t) ↦ λ h. absurd (omega arith)
    ];
    at_least = elim [
      | zero ↦ λ h k. omega arith
      | suc zero ↦ λ h k. cc
      | suc (suc t) ↦ λ h k. absurd (omega arith)
    ];
  };
  lists = record {
    current = omega arith;
    ready = λ p. update-cases (Valid 2) (λ _. []) 0 p (1 ∷ []) (λ _. (omega arith, tt)) tt;
    wait = tt;
    buried = tt;
    vector = tt;
    idle_ready = refl;
  };
  locks = record {
    listed = elim [
      | zero ↦ λ m h. omega arith
      | suc zero ↦ λ m h. omega arith
      | suc (suc t) ↦ λ m h. absurd (omega arith)
    ];
    allocated = elim [
      | zero ↦ λ h. tt
      | suc zero ↦ λ h. tt
      | suc (suc t) ↦ λ h. absurd (omega arith)
    ];
    free = λ m h. absurd (omega arith);
    owner = λ m h. absurd (omega arith);
    waiters = λ m i h. absurd (omega arith);
  };
}

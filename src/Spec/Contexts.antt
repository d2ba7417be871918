-- ===== src/Spec/Contexts.antt =====
-- Machine.cpp: what MachineContextCreate leaves behind.
use mathlib.Core.Option
use project.Prelude.{
  ℕ, zero, suc, ◌<◌, ◌≡◌, refl, ap, ◌≢◌, inl, inr, true, false, some, arith, if◌then◌else◌,
  Bool-cases, update, update_self,
}
use project.Machine.Contexts.{
  in_trampoline, in_boot, in_caller, Process, block_usr1, context_save, trampoline_first,
  sigsuspend_usr1, await_called, prepare, restore, first_switch, context_create,
}

-- The context is there, and the process is as before but for the static variables.
pub record IsCreated (ref entry param stackaddr stacksize : ℕ) (p q : Process) : Type 0 where
  pub starts :
      q.contexts ref
      ≡ some (record { leads_to = in_boot entry param; stack = (stackaddr, stacksize) })
  pub others : (i : ℕ) → i ≢ ref → q.contexts i ≡ p.contexts i
  pub mask : q.mask ≡ p.mask
  pub action : q.action ≡ p.action
  pub alt_stack :
      (p.alt_stack.disabled ≡ false → q.alt_stack ≡ p.alt_stack)
      × (q.alt_stack.disabled ≡ p.alt_stack.disabled)
  pub stack : q.stack ≡ p.stack
  pub none_pending : q.pending_usr1 ≡ false

-- The process when the first switch is next.
abbrev restored : ℕ → ℕ → ℕ → ℕ → ℕ → Process → Process
restored ref entry param a z p = record p {
  alt_stack =
      if p.alt_stack.disabled then record { sp = a; size = z; disabled = true } else p.alt_stack;
  pending_usr1 = false;
  creation = record {
    create_ref = ref;
    function = entry;
    param = param;
    signals = p.mask;
    called = true;
  };
  contexts = update p.contexts ref (some (record { leads_to = in_trampoline; stack = (a, z) }));
}

abbrev with_context : ℕ → ℕ → ℕ → ℕ → ℕ → Process → Process
with_context ref entry param a z p = record (restored ref entry param a z p) {
  contexts =
      update (update p.contexts ref (some (record { leads_to = in_trampoline; stack = (a, z) })))
        ref (some (record { leads_to = in_boot entry param; stack = (a, z) }));
  caller = some (record { leads_to = in_caller; stack = p.stack });
}

with_context-IsCreated :
    (ref entry param a z : ℕ) (p : Process)
    → IsCreated ref entry param a z p (with_context ref entry param a z p)
with_context-IsCreated ref entry param a z p = record {
  starts =
      update_self
        (update p.contexts ref (some (record { leads_to = in_trampoline; stack = (a, z) }))) ref
        (some (record { leads_to = in_boot entry param; stack = (a, z) }));
  others = λ i h. ground (arith, h);
  mask = refl;
  action = refl;
  alt_stack = (
    λ e. rw e refl,
    elim (Bool-cases p.alt_stack.disabled) [ inl e ↦ rw e refl | inr e ↦ rw e refl ],
  );
  stack = refl;
  none_pending = refl;
}

create_once :
    (fuel ref entry param a z : ℕ) (p : Process)
    → context_create (suc fuel) ref entry param a z p ≡ some (with_context ref entry param a z p)
unfolding context_create await_called sigsuspend_usr1 prepare block_usr1 trampoline_first
    context_save restore Option.bind
create_once zero ref entry param a z p =
    ap (λ o. first_switch o (restored ref entry param a z p))
      (update_self p.contexts ref (some (record { leads_to = in_trampoline; stack = (a, z) })))
create_once (suc fuel) ref entry param a z p =
    ap (λ o. first_switch o (restored ref entry param a z p))
      (update_self p.contexts ref (some (record { leads_to = in_trampoline; stack = (a, z) })))

-- One round of the loop for the signal is enough: MachineContextCreate returns, the new context will
-- call the entry function with its parameter on the stack that was given, no other context has
-- changed, and the mask of signals, the action of SIGUSR1, the stack that the process runs on, and
-- the alternate stack, if one was enabled, are those of before.
pub context_create-IsCreated :
    (fuel ref entry param stackaddr stacksize : ℕ) (p : Process)
    → 0 < fuel
    → (q : Process) × (context_create fuel ref entry param stackaddr stacksize p ≡ some q)
      × IsCreated ref entry param stackaddr stacksize p q
context_create-IsCreated zero ref entry param a z p h = absurd (omega (arith, h))
context_create-IsCreated (suc fuel) ref entry param a z p h = (
  with_context ref entry param a z p,
  create_once fuel ref entry param a z p,
  with_context-IsCreated ref entry param a z p,
)

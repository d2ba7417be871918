-- ===== src/Machine/Contexts.antt =====
-- Machine.cpp and Machine.h: MachineContextCreate, which borrows the handler and the stack of SIGUSR1
-- to get a context that runs on a stack of its own; and what a context holds.
use mathlib.Core.Option
use project.Prelude.{ℕ, zero, suc, Bool, true, false, Option, none, some, if◌then◌else◌, update}
use project.Machine.Data.{SigSet}

-- SIGUSR1
abbrev pub usr1 : ℕ
usr1 = 10

-- sa_handler of SIGUSR1, with SA_ONSTACK, or an action that was there before.
pub data Action : Type 0 where
  trampoline : Action
  other : ℕ → Action

-- stack_t; `disabled` is SS_DISABLE.
pub record AltStack : Type 0 where
  pub sp : ℕ
  pub size : ℕ
  pub disabled : Bool

-- Where a jump buffer leads: behind the setjmp of the trampoline, behind that of MachineContextBoot
-- with its two local variables, or back to the caller of MachineContextCreate; and on which stack.
pub data Resume : Type 0 where
  in_trampoline : Resume
  in_boot : ℕ → ℕ → Resume
  in_caller : Resume

-- SMachineContext. setjmp does not save the mask.
pub record Saved : Type 0 where
  pub leads_to : Resume
  pub stack : ℕ × ℕ

-- The static variables of the creation.
pub record Creation : Type 0 where
  pub create_ref : ℕ
  pub function : ℕ
  pub param : ℕ
  pub signals : SigSet
  pub called : Bool

-- The process: its signals, and the contexts by address. `stack` is the one that it runs on.
pub record Process : Type 0 where
  pub mask : SigSet
  pub action : Action
  pub alt_stack : AltStack
  pub pending_usr1 : Bool
  pub stack : ℕ × ℕ
  pub creation : Creation
  pub contexts : ℕ → Option Saved
  pub caller : Option Saved

-- sigprocmask with SIG_BLOCK for SIGUSR1 alone
unfoldable pub block_usr1 : Process → Process
block_usr1 p = record p { mask = update p.mask usr1 true }

-- MachineContextSave(ref), called on the stack that the process runs on.
unfoldable pub context_save : ℕ → Resume → Process → Process
context_save ref r p = record p {
  contexts = update p.contexts ref (some (record { leads_to = r; stack = p.stack }));
}

-- The trampoline as a signal handler: it runs on the alternate stack, saves where it is and returns.
unfoldable pub trampoline_first : Process → Process
trampoline_first p =
    record (context_save p.creation.create_ref in_trampoline (record p { stack = on })) {
      stack = p.stack;
      creation = record p.creation { called = true };
    }
  where
    on : ℕ × ℕ
    on = if p.alt_stack.disabled then p.stack else (p.alt_stack.sp, p.alt_stack.size)

-- The delivery of SIGUSR1. Other actions are code that is not known here.
abbrev pub deliver : Action → Process → Option Process
deliver trampoline p = some (trampoline_first (record p { pending_usr1 = false }))
deliver (other f) p = none

-- sigsuspend with every signal blocked but SIGUSR1; `none` means that it does not return.
unfoldable pub sigsuspend_usr1 : Process → Option Process
sigsuspend_usr1 p = if p.pending_usr1 then deliver p.action p else none

-- while(!MachineContextCalled), on fuel
unfoldable pub await_called : ℕ → Process → Option Process
await_called zero p = if p.creation.called then some p else none
await_called (suc n) p =
    let rest = Option.bind (sigsuspend_usr1 p) (await_called n) in
    if p.creation.called then some p else rest

-- Steps 1 to 4, up to the loop.
unfoldable pub prepare : ℕ → ℕ → ℕ → ℕ → ℕ → Process → Process
prepare ref entry param stackaddr stacksize p = record (block_usr1 p) {
  action = trampoline;
  alt_stack = record { sp = stackaddr; size = stacksize; disabled = false };
  pending_usr1 = true;
  creation = record {
    create_ref = ref;
    function = entry;
    param = param;
    signals = p.mask;
    called = false;
  };
}

-- Step 6: the stack, the action and the mask of before come back.
unfoldable pub restore : SigSet → Action → AltStack → Process → Process
restore mask action old p = record p {
  mask = mask;
  action = action;
  alt_stack = if old.disabled then record p.alt_stack { disabled = true } else old;
}

-- MachineContextCreateBoot up to its switch back: the mask, the local variables, the new buffer.
abbrev pub boot_first : Saved → Process → Process
boot_first c p =
    record (context_save p.creation.create_ref (in_boot p.creation.function p.creation.param)
      (record p { mask = p.creation.signals; stack = c.stack })) { stack = p.stack }

-- Steps 7 to 14: the switch into the context, which goes on in the trampoline, and the switch back.
abbrev pub first_switch : Option Saved → Process → Option Process
first_switch none p = none
first_switch (some c) p = jump c.leads_to
  where
    jump : Resume → Option Process
    jump in_trampoline = some (
        boot_first c
          (record p { caller = some (record { leads_to = in_caller; stack = p.stack }) }))
    jump (in_boot f a) = none
    jump in_caller = none

unfoldable pub context_create : ℕ → ℕ → ℕ → ℕ → ℕ → ℕ → Process → Option Process
context_create fuel ref entry param stackaddr stacksize p =
    Option.bind (await_called fuel (prepare ref entry param stackaddr stacksize p))
      λ q. let r = restore p.mask p.action p.alt_stack q in first_switch (r.contexts ref) r

-- ===== src/Api/Call.antt =====
-- VirtualMachine.cpp: what the calls share. A reference argument is whether it is not NULL; what is
-- written through it is in the reply.
use project.Prelude.{ℕ, Option, none, some, Bool, ◌==◌}
use project.Machine.Data.{SigSet}
use project.Machine.Signals.{suspend_signals, resume_signals}
use project.Vm.Data.{ThreadStore}
use project.Vm.Run.{done, M}

pub record Reply : Type 0 where
  pub status : ℕ
  pub out : Option ℕ

-- MachineSuspendSignals(&sigState), and the mask that it saves
unfoldable pub suspend : ThreadStore → ThreadStore × SigSet
suspend s = let (m, saved) = suspend_signals s.machine in (record s { machine = m }, saved)

-- MachineResumeSignals(&sigState); return status;
unfoldable pub answer : SigSet → ℕ → Option ℕ → M Reply
answer saved status out s =
    done (record { status = status; out = out })
      (record s { machine = resume_signals saved s.machine })

abbrev pub is_some : Option ℕ → Bool
is_some none = Bool.false
is_some (some _) = Bool.true

abbrev pub is_thread : ℕ → Option ℕ → Bool
is_thread t none = Bool.false
is_thread t (some o) = o == t

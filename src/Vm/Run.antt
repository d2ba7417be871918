-- ===== src/Vm/Run.antt =====
-- A computation over the thread store that may hand the processor over on the way.
-- `MachineContextSwitch` saves where the running thread is and goes on with another: the computation
-- stops with that thread and the store at that moment, and with what is left to do, which runs once
-- the thread is switched back in.
use project.Prelude.{ℕ, Option, none, some}
use project.Vm.Data.{ThreadStore}

pub data Run (A : Type 0) : Type 0 where
  done : A → ThreadStore → Run A
  switched : ℕ → ThreadStore → (ThreadStore → Run A) → Run A
  -- a null pointer or an index out of range
  undefined : Run A
  -- the fuel of a loop ran out
  unfinished : Run A
  -- the process ends by abort() or by exit(1)
  aborted : Run A

abbrev pub M : Type 0 → Type 0
M A = ThreadStore → Run A

abbrev pub bind : {A B : Type 0} → Run A → (A → M B) → Run B
bind (done a s) f = f a s
bind (switched t s k) f = switched t s (λ s'. bind (k s') f)
bind undefined f = undefined
bind unfinished f = unfinished
bind aborted f = aborted

abbrev pub finish : Option ThreadStore → Run (Unit {0})
finish none = undefined
finish (some s) = done tt s

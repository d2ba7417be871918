-- ===== src/Spec/TryLock.antt =====
-- VirtualMachine.cpp: VMMutexAcquire with VM_TIMEOUT_IMMEDIATE.
use project.Prelude.{
  ℕ, ◌≡◌, refl, inl, inr, false, Option, none, some, ◌==◌, if◌then◌else◌, Bool-cases, ==_refl,
}
use project.Machine.Signals.{suspend_signals, resume_signals}
use project.Vm.Data.{failure, success, timeout_immediate, ThreadStore}
use project.Vm.Run.{Run, done, bind}
use project.Vm.Tcb.{add_mutex, write_mutexes}
use project.Vm.Threads.{find_mutex_by_id}
use project.Vm.Locks.{set_owner, lock_owned, lock}
use project.Api.Call.{Reply, suspend, answer}
use project.Api.Mutexes.{check_owner, vm_mutex_acquire}

-- Whether a thread can have a mutex at once: if it is free, or its own already.
abbrev pub try_status : ℕ → Option ℕ → ℕ
try_status t none = success
try_status t (some o) = if o == t then success else failure

abbrev pub owner_after : ℕ → Option ℕ → Option ℕ
owner_after t none = some t
owner_after t (some o) = some o

-- The call has returned without a switch, with the signals as they were.
pub record IsTried (m : ℕ) (s : ThreadStore) (r : Run Reply) : Type 0 where
  pub after : ThreadStore
  pub returned :
      r ≡ done (record { status = try_status s.current_thread (s.mutex m).owner; out = none }) after
  pub owner : (after.mutex m).owner ≡ owner_after s.current_thread (s.mutex m).owner
  pub machine : after.machine ≡ s.machine

-- For an identifier of a mutex that is not deleted, VMMutexAcquire with VM_TIMEOUT_IMMEDIATE returns
-- without a switch of threads and with the machine as it was, the mask of signals included. If the
-- mutex was free, the caller owns it and the status is success; if not, its owner is the same as
-- before, and the status is success exactly if that is the caller, and failure otherwise.
pub vm_mutex_acquire-IsTried :
    (id m : ℕ) (s : ThreadStore)
    → find_mutex_by_id id s ≡ some m
    → (s.mutex m).deleted ≡ false
    → IsTried m s (vm_mutex_acquire id timeout_immediate s)
unfolding vm_mutex_acquire suspend suspend_signals resume_signals find_mutex_by_id lock check_owner
    answer set_owner add_mutex write_mutexes
vm_mutex_acquire-IsTried id m s found kept = rw (found, kept) (from (s.mutex m).owner refl)
  where
    c : ℕ
    c = s.current_thread

    s1 : ThreadStore
    s1 = (suspend s).0

    from :
        (o : Option ℕ)
        → (s.mutex m).owner ≡ o
        → IsTried m s
            (bind (lock_owned m c timeout_immediate o s1) (λ _. check_owner s.machine.mask m c))
    from none e = record {
      after = record (add_mutex c m false (set_owner m (some c) s1)) { machine = s.machine };
      returned = rw (e, ==_refl m, ==_refl c) refl;
      owner = rw (e, ==_refl m) refl;
      machine = refl;
    }
    from (some o) e = record {
      after = s;
      returned = elim (Bool-cases (o == c)) [
        | inl own ↦ rw (e, own) refl
        | inr other ↦ rw (e, other) refl
      ];
      owner = rw e refl;
      machine = refl;
    }

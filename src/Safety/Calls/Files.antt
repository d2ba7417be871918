-- ===== src/Safety/Calls/Files.antt =====
-- VirtualMachine.cpp: the calls on files.
use project.Prelude.{
  ℕ, ◌+◌, ◌≤◌, ◌≡◌, refl, subst, ◌≢◌, inl, inr, Bool, true, false, Option, none, some, List, arith,
  if◌then◌else◌, Bool-cases, length,
}
use project.Machine.Data.{SigSet, Machine, FileCallback, machine_file_io_callback, payload_capacity}
use project.Machine.Codec.{is_negative}
use project.Machine.Requests
use project.Vm.Data.{ThreadStore, invalid_parameter}
use project.Vm.Run.{Run, M}
use project.Api.Call.{Reply, answer}
use project.Api.Files.{
  Request, sent, wait_for_request, file_result, perform, read_with, open_with, write_with,
  vm_file_seek, vm_file_read, vm_file_close, vm_file_open, vm_file_write,
}
use project.Safety.Inv.{Inv}
use project.Safety.Safe.{Safe, Any, Safe-Next, Safe-bind}
use project.Safety.Steps.{machine-Next}
use project.Safety.Wait.{wait_current_thread_on_io-Safe}
use project.Safety.Calls.Common.{Restores, answer-Safe, suspended-Safe}

-- The request fits into the buffer, in every state of the machine.
abbrev Fits : Request → Type 0
Fits request = (c : Option FileCallback) (d : Option ℕ) (m : Machine) → request c d m ≢ none

file_result-Safe :
    (saved : SigSet) (t : ℕ) (writes : Bool) (u : ThreadStore)
    → Inv u
    → Safe u.current_thread (Restores saved) u (file_result saved t writes u)
unfolding file_result
file_result-Safe saved t writes u v = elim (Bool-cases (is_negative (u.tcb t).file_io_result)) [
  | inl e ↦ rw e (answer-Safe saved _ _ u v)
  | inr e ↦ rw e (answer-Safe saved _ _ u v)
]

perform-Safe :
    (saved : SigSet) (request : Request) (writes : Bool) (u : ThreadStore)
    → Inv u
    → Fits request
    → Safe u.current_thread (Restores saved) u (perform saved request writes u)
unfolding perform wait_for_request
perform-Safe saved request writes u v fits =
    Safe-bind u.current_thread Any (Restores saved) u _ _
      (started (request (some machine_file_io_callback) (some u.current_thread) u.machine)
        (fits (some machine_file_io_callback) (some u.current_thread) u.machine))
      λ _ w vw g c _.
        subst (λ d. Safe d (Restores saved) w (file_result saved u.current_thread writes w)) c
          (file_result-Safe saved u.current_thread writes w vw)
  where
    started : (o : Option Machine) → o ≢ none → Safe u.current_thread Any u (sent u o)
    started none h = absurd (h refl)
    started (some m) h =
        let n = machine-Next u v m in Safe-Next Any u _ _ n (wait_current_thread_on_io-Safe _ n.inv)

module _ (s : ThreadStore) (v : Inv s) where
  abbrev Guards : Run Reply → ThreadStore → Type 0
  Guards r u = Safe u.current_thread (Restores s.machine.mask) u r

  -- VMFileSeek
  pub vm_file_seek-Safe :
      (fd offset whence : ℕ) (has_ref : Bool)
      → Safe s.current_thread (Restores s.machine.mask) s (vm_file_seek fd offset whence has_ref s)
  unfolding vm_file_seek
  vm_file_seek-Safe fd offset whence has_ref =
      suspended-Safe s v seeking λ u n e. body has_ref u n.inv
    where
      seeking : SigSet → M Reply
      seeking saved u =
          if has_ref
          then perform saved (Requests.file_seek fd offset whence) true u
          else answer saved invalid_parameter none u

      fits : Fits (Requests.file_seek fd offset whence)
      fits c d m = unfold Requests.file_seek in λ e. ground arith

      body :
          (has_ref : Bool) (u : ThreadStore)
          → Inv u
          → Guards
              (if has_ref
                then perform s.machine.mask (Requests.file_seek fd offset whence) true u
                else answer s.machine.mask invalid_parameter none u)
              u
      body false u vu = answer-Safe s.machine.mask _ _ u vu
      body true u vu = perform-Safe s.machine.mask _ true u vu fits

  -- From a store with the invariant, VMFileRead with any arguments, null pointers included,
  -- reaches no null pointer and no index out of range in the store. The invariant holds at the
  -- switch and at the end, provided that the threads that run in between keep it and change no
  -- identifier, priority or entry function; the call ends in the thread that made it, with the
  -- mask of signals of before.
  pub vm_file_read-Safe :
      (fd : ℕ) (address length : Option ℕ)
      → Safe s.current_thread (Restores s.machine.mask) s (vm_file_read fd address length s)
  unfolding vm_file_read
  vm_file_read-Safe fd address length =
      suspended-Safe s v (λ saved u. read_with saved fd address length u)
        λ u n e. body address length u n.inv
    where
      fits : (a n : ℕ) → Fits (Requests.file_read fd a n)
      fits a n c d m = unfold Requests.file_read in λ e. ground arith

      body :
          (address length : Option ℕ) (u : ThreadStore)
          → Inv u
          → Guards (read_with s.machine.mask fd address length u) u
      body none none u vu = answer-Safe s.machine.mask _ _ u vu
      body none (some n) u vu = answer-Safe s.machine.mask _ _ u vu
      body (some a) none u vu = answer-Safe s.machine.mask _ _ u vu
      body (some a) (some n) u vu = perform-Safe s.machine.mask _ true u vu (fits a n)

  -- VMFileClose
  pub vm_file_close-Safe :
      (fd : ℕ) → Safe s.current_thread (Restores s.machine.mask) s (vm_file_close fd s)
  unfolding vm_file_close
  vm_file_close-Safe fd =
      suspended-Safe s v (λ saved u. perform saved (Requests.file_close fd) false u)
        λ u n e. perform-Safe s.machine.mask _ false u n.inv fits
    where
      fits : Fits (Requests.file_close fd)
      fits c d m = unfold Requests.file_close in λ e. ground arith

  -- VMFileOpen, with a name that fits into the buffer
  pub vm_file_open-Safe :
      (filename : Option (List ℕ)) (flags mode : ℕ) (has_ref : Bool)
      → ((name : List ℕ) → filename ≡ some name → length name + 9 ≤ payload_capacity)
      → Safe s.current_thread
          (Restores s.machine.mask)
          s
          (vm_file_open filename flags mode has_ref s)
  unfolding vm_file_open
  vm_file_open-Safe filename flags mode has_ref short =
      suspended-Safe s v (λ saved u. open_with saved filename flags mode has_ref u)
        λ u n e. body filename has_ref short u n.inv
    where
      fits :
          (name : List ℕ)
          → length name + 9 ≤ payload_capacity
          → Fits (Requests.file_open name flags mode)
      fits name h c d m = unfold Requests.file_open in λ e. ground arith

      body :
          (filename : Option (List ℕ)) (has_ref : Bool)
          → ((name : List ℕ) → filename ≡ some name → length name + 9 ≤ payload_capacity)
          → (u : ThreadStore) → Inv u
          → Guards (open_with s.machine.mask filename flags mode has_ref u) u
      body none false h u vu = answer-Safe s.machine.mask _ _ u vu
      body none true h u vu = answer-Safe s.machine.mask _ _ u vu
      body (some name) false h u vu = answer-Safe s.machine.mask _ _ u vu
      body (some name) true h u vu =
          perform-Safe s.machine.mask _ true u vu (fits name (h name refl))

  -- VMFileWrite, with a length that fits into the buffer
  pub vm_file_write-Safe :
      (fd : ℕ) (address length : Option ℕ)
      → ((n : ℕ) → length ≡ some n → n + 8 ≤ payload_capacity)
      → Safe s.current_thread (Restores s.machine.mask) s (vm_file_write fd address length s)
  unfolding vm_file_write
  vm_file_write-Safe fd address length short =
      suspended-Safe s v (λ saved u. write_with saved fd address length u)
        λ u n e. body address length short u n.inv
    where
      fits : (a n : ℕ) → n + 8 ≤ payload_capacity → Fits (Requests.file_write fd a n)
      fits a n h c d m = unfold Requests.file_write in λ e. ground arith

      body :
          (address length : Option ℕ)
          → ((n : ℕ) → length ≡ some n → n + 8 ≤ payload_capacity)
          → (u : ThreadStore) → Inv u
          → Guards (write_with s.machine.mask fd address length u) u
      body none none h u vu = answer-Safe s.machine.mask _ _ u vu
      body none (some n) h u vu = answer-Safe s.machine.mask _ _ u vu
      body (some a) none h u vu = answer-Safe s.machine.mask _ _ u vu
      body (some a) (some n) h u vu = perform-Safe s.machine.mask _ true u vu (fits a n (h n refl))

-- ===== src/Api/Files.antt =====
-- VirtualMachine.cpp: VMFileOpen, VMFileClose, VMFileRead, VMFileWrite and VMFileSeek. An `int` is
-- its 32-bit pattern.
use project.Prelude.{ℕ, List, Option, none, some, Bool, true, false, if◌then◌else◌}
use project.Machine.Data.{SigSet, Machine, FileCallback, machine_file_io_callback}
use project.Machine.Codec.{is_negative}
use project.Machine.Requests
use project.Vm.Data.{ThreadStore, failure, success, invalid_parameter}
use project.Vm.Run.{Run, undefined, M, bind}
use project.Vm.Wait.{wait_current_thread_on_io}
use project.Api.Call.{Reply, suspend, answer}

-- The request, as MachineFile* takes it: a callback and its data.
abbrev pub Request : Type 0
Request = Option FileCallback → Option ℕ → Machine → Option Machine

abbrev pub sent : ThreadStore → Option Machine → Run (Unit {0})
sent s none = undefined
sent s (some m) = wait_current_thread_on_io (record s { machine = m })

-- The request is sent for the running thread, which then waits.
unfoldable pub wait_for_request : Request → M (Unit {0})
wait_for_request request s =
    sent s (request (some machine_file_io_callback) (some s.current_thread) s.machine)

-- What the calls do once the thread is switched back in: `writes` is whether the result is also
-- written through a reference.
unfoldable pub file_result : SigSet → ℕ → Bool → M Reply
file_result saved current writes s =
    let result = (s.tcb current).file_io_result in
    let out : Option ℕ = if writes then some result else none in
    if is_negative result then answer saved failure out s else answer saved success out s

unfoldable pub perform : SigSet → Request → Bool → M Reply
perform saved request writes s =
    bind (wait_for_request request s) (λ _. file_result saved s.current_thread writes)

unfoldable pub vm_file_seek : ℕ → ℕ → ℕ → Bool → M Reply
vm_file_seek fd offset whence has_ref s =
    let (s1, saved) = suspend s in
    if has_ref
    then perform saved (Requests.file_seek fd offset whence) true s1
    else answer saved invalid_parameter none s1

abbrev pub read_with : SigSet → ℕ → Option ℕ → Option ℕ → M Reply
read_with saved fd (some address) (some size) s =
    perform saved (Requests.file_read fd address size) true s
read_with saved fd _ _ s = answer saved invalid_parameter none s

-- `length` points to the size that is asked for.
unfoldable pub vm_file_read : ℕ → Option ℕ → Option ℕ → M Reply
vm_file_read fd address length s =
    let (s1, saved) = suspend s in read_with saved fd address length s1

unfoldable pub vm_file_close : ℕ → M Reply
vm_file_close fd s = let (s1, saved) = suspend s in perform saved (Requests.file_close fd) false s1

abbrev pub open_with : SigSet → Option (List ℕ) → ℕ → ℕ → Bool → M Reply
open_with saved (some filename) flags mode true s =
    perform saved (Requests.file_open filename flags mode) true s
open_with saved _ flags mode _ s = answer saved invalid_parameter none s

unfoldable pub vm_file_open : Option (List ℕ) → ℕ → ℕ → Bool → M Reply
vm_file_open filename flags mode has_ref s =
    let (s1, saved) = suspend s in open_with saved filename flags mode has_ref s1

abbrev pub write_with : SigSet → ℕ → Option ℕ → Option ℕ → M Reply
write_with saved fd (some address) (some size) s =
    perform saved (Requests.file_write fd address size) true s
write_with saved fd _ _ s = answer saved invalid_parameter none s

unfoldable pub vm_file_write : ℕ → Option ℕ → Option ℕ → M Reply
vm_file_write fd address length s =
    let (s1, saved) = suspend s in write_with saved fd address length s1

-- ===== src/Spec/Refused.antt =====
-- VirtualMachine.cpp: when a call refuses its arguments, and what it answers then. The statuses are
-- those of the code, where Project02.pdf asks for others too: a VMFileSeek without an address for the
-- offset, a VMMutexQuery of a mutex without an owner, and a VMMutexRelease of one that is deleted.
use project.Prelude.{ℕ, ◌≡◌, ◌⊎◌, Bool, true, false, not, Option, none, some, ◌==◌, if◌then◌else◌}
use project.Vm.Data.{
  ThreadStore, is_dead, success, failure, invalid_parameter, invalid_id, invalid_state,
  thread_id_invalid, timeout_infinite,
}
use project.Vm.Run.{Run, done, switched, undefined, unfinished, aborted, M, bind}
use project.Vm.Threads.{find_mutex_by_id, find_thread_by_id}
use project.Vm.Entry.{safe_entry_end}
use project.Api.Call.{Reply, suspend, is_some, is_thread}
use project.Api.Mutexes.{
  vm_mutex_create, vm_mutex_delete, vm_mutex_query, vm_mutex_acquire, vm_mutex_release,
}
use project.Api.Threads.{
  vm_thread_create, vm_thread_delete, vm_thread_activate, vm_thread_terminate, vm_thread_id,
  vm_thread_state, vm_thread_sleep,
}
use project.Api.Files.{vm_file_open, vm_file_close, vm_file_read, vm_file_write, vm_file_seek}
use project.System.Defs.{
  Call, mutex_create, mutex_delete, mutex_query, mutex_acquire, mutex_release, thread_create,
  thread_delete, thread_activate, thread_terminate, thread_id, thread_state, thread_sleep,
  file_open, file_close, file_read, file_write, file_seek, entry_returns,
}

-- The call with its answer; a return from the entry function has none.
abbrev pub reply : Call → M Reply
reply (mutex_create garbage has_ref) s = vm_mutex_create garbage has_ref s
reply (mutex_delete id) s = vm_mutex_delete id s
reply (mutex_query id has_ref) s = vm_mutex_query id has_ref s
reply (mutex_acquire id timeout) s = vm_mutex_acquire id timeout s
reply (mutex_release id) s = vm_mutex_release id s
reply (thread_create entry param memsize prio has_ref) s =
    vm_thread_create entry param memsize prio has_ref s
reply (thread_delete id) s = vm_thread_delete id s
reply (thread_activate id) s = vm_thread_activate id s
reply (thread_terminate fuel id) s = vm_thread_terminate fuel id s
reply (thread_id has_ref) s = vm_thread_id has_ref s
reply (thread_state id has_ref) s = vm_thread_state id has_ref s
reply (thread_sleep tick) s = vm_thread_sleep tick s
reply (file_open name flags mode has_ref) s = vm_file_open name flags mode has_ref s
reply (file_close fd) s = vm_file_close fd s
reply (file_read fd address size) s = vm_file_read fd address size s
reply (file_write fd address size) s = vm_file_write fd address size s
reply (file_seek fd offset whence has_ref) s = vm_file_seek fd offset whence has_ref s
reply (entry_returns fuel) s = bind (safe_entry_end fuel s) (λ _ _. aborted)

-- The status with which a call is refused if a condition does not hold.
abbrev pub demand : Bool → ℕ → Option ℕ → Option ℕ
demand true status next = next
demand false status next = some status

abbrev pub on_mutex : Option ℕ → ThreadStore → (ℕ → Option ℕ) → Option ℕ
on_mutex none s next = some invalid_id
on_mutex (some m) s next = demand (not (s.mutex m).deleted) invalid_id (next m)

abbrev pub on_thread : Option ℕ → (ℕ → Option ℕ) → Option ℕ
on_thread none next = some invalid_id
on_thread (some t) next = next t

abbrev pub both : Option ℕ → Option ℕ → Option ℕ
both (some a) (some n) = none
both _ _ = some invalid_parameter

abbrev pub release_refusal : Option ℕ → ThreadStore → Option ℕ
release_refusal none s = some invalid_id
release_refusal (some m) s =
    demand (is_thread s.current_thread (s.mutex m).owner) invalid_state none

abbrev pub refusal : Call → ThreadStore → Option ℕ
refusal (mutex_create garbage has_ref) s = demand has_ref invalid_parameter none
refusal (mutex_delete id) s =
    on_mutex (find_mutex_by_id id s) s
      λ m. demand (not (is_some (s.mutex m).owner)) invalid_state none
refusal (mutex_query id has_ref) s = demand has_ref invalid_parameter (
    on_mutex (find_mutex_by_id id s) s
      λ m. demand (is_some (s.mutex m).owner) thread_id_invalid none)
refusal (mutex_acquire id timeout) s = on_mutex (find_mutex_by_id id s) s λ m. none
refusal (mutex_release id) s = release_refusal (find_mutex_by_id id s) s
refusal (thread_create (some entry) param memsize prio true) s = none
refusal (thread_create _ param memsize prio _) s = some invalid_parameter
refusal (thread_delete id) s =
    on_thread (find_thread_by_id id s) λ t. demand (is_dead (s.tcb t).state) invalid_state none
refusal (thread_activate id) s =
    on_thread (find_thread_by_id id s) λ t. demand (is_dead (s.tcb t).state) invalid_state none
refusal (thread_terminate fuel id) s =
    on_thread (find_thread_by_id id s)
      λ t. demand (not (is_dead (s.tcb t).state)) invalid_state none
refusal (thread_id has_ref) s = demand has_ref invalid_parameter none
refusal (thread_state id has_ref) s =
    demand has_ref invalid_parameter (on_thread (find_thread_by_id id s) λ t. none)
refusal (thread_sleep tick) s = demand (not (tick == timeout_infinite)) invalid_parameter none
refusal (file_open (some name) flags mode true) s = none
refusal (file_open _ flags mode _) s = some invalid_parameter
refusal (file_close fd) s = none
refusal (file_read fd address size) s = both address size
refusal (file_write fd address size) s = both address size
refusal (file_seek fd offset whence has_ref) s = demand has_ref invalid_parameter none
refusal (entry_returns fuel) s = none

-- The store behind a refused call: VMMutexRelease leaves the signals blocked where the state is
-- invalid.
abbrev pub behind : Call → ℕ → ThreadStore → ThreadStore
behind (mutex_release id) status s = if status == invalid_state then (suspend s).0 else s
behind _ status s = s

-- At the end, after any switches.
abbrev pub Ends : (Reply → Type 0) → Run Reply → Type 0
Ends P (done r s) = P r
Ends P (switched t s k) = (w : ThreadStore) → Ends P (k w)
Ends P undefined = Unit
Ends P unfinished = Unit
Ends P aborted = Unit

abbrev pub IsGranted : Reply → Type 0
IsGranted r = (r.status ≡ success) ⊎ (r.status ≡ failure)

-- A refused call has no effect besides; another is answered with success or with failure.
abbrev pub Result : Option ℕ → Run Reply → (ℕ → ThreadStore) → Type 0
Result (some status) r left = r ≡ done (record { status = status; out = none }) (left status)
Result none r left = Ends IsGranted r

abbrev pub IsAnswered : Call → ThreadStore → Type 0
IsAnswered x s = Result (refusal x s) (reply x s) (λ status. behind x status s)

pub Ends-bind :
    {A : Type 0} (P : Reply → Type 0) (r : Run A) (f : A → M Reply)
    → ((a : A) (s : ThreadStore) → Ends P (f a s))
    → Ends P (bind r f)
Ends-bind P (done a s) f h = h a s
Ends-bind P (switched t s k) f h = λ w. Ends-bind P (k w) f h
Ends-bind P undefined f h = tt
Ends-bind P unfinished f h = tt
Ends-bind P aborted f h = tt

-- ===== src/System/Defs.antt =====
-- VirtualMachine.cpp and UtilityFunctions.cpp as one system: threads that make calls, interrupts and
-- context switches, as a step relation.
use project.Prelude.{ℕ, ◌+◌, ◌≤◌, ◌≡◌, Bool, false, Option, some, List, update, length}
use project.Machine.Data.{payload_capacity}
use project.Vm.Data.{Entry, is_idle, ThreadStore}
use project.Vm.Run.{Run, done, switched, M, bind}
use project.Vm.Timer.{timer_interrupt, machine_file_io_callback}
use project.Vm.Entry.{safe_entry_begin, safe_entry_end}
use project.Api.Call.{Reply}
use project.Api.Mutexes.{
  vm_mutex_create, vm_mutex_delete, vm_mutex_query, vm_mutex_acquire, vm_mutex_release,
}
use project.Api.Threads.{
  vm_thread_create, vm_thread_delete, vm_thread_activate, vm_thread_terminate, vm_thread_id,
  vm_thread_state, vm_thread_sleep,
}
use project.Api.Files.{vm_file_open, vm_file_close, vm_file_read, vm_file_write, vm_file_seek}

-- What module code may do: the calls of the virtual machine, and to return from its entry function.
pub data Call : Type 0 where
  mutex_create : Bool → Bool → Call
  mutex_delete : ℕ → Call
  mutex_query : ℕ → Bool → Call
  mutex_acquire : ℕ → ℕ → Call
  mutex_release : ℕ → Call
  thread_create : Option Entry → ℕ → ℕ → ℕ → Bool → Call
  thread_delete : ℕ → Call
  thread_activate : ℕ → Call
  thread_terminate : ℕ → ℕ → Call
  thread_id : Bool → Call
  thread_state : ℕ → Bool → Call
  thread_sleep : ℕ → Call
  file_open : Option (List ℕ) → ℕ → ℕ → Bool → Call
  file_close : ℕ → Call
  file_read : ℕ → Option ℕ → Option ℕ → Call
  file_write : ℕ → Option ℕ → Option ℕ → Call
  file_seek : ℕ → ℕ → ℕ → Bool → Call
  entry_returns : ℕ → Call

abbrev pub drop_reply : Run Reply → Run (Unit {0})
drop_reply r = bind r (λ _ s. done tt s)

unfoldable pub exec : Call → M (Unit {0})
exec (mutex_create garbage has_ref) s = drop_reply (vm_mutex_create garbage has_ref s)
exec (mutex_delete id) s = drop_reply (vm_mutex_delete id s)
exec (mutex_query id has_ref) s = drop_reply (vm_mutex_query id has_ref s)
exec (mutex_acquire id timeout) s = drop_reply (vm_mutex_acquire id timeout s)
exec (mutex_release id) s = drop_reply (vm_mutex_release id s)
exec (thread_create entry param memsize prio has_ref) s =
    drop_reply (vm_thread_create entry param memsize prio has_ref s)
exec (thread_delete id) s = drop_reply (vm_thread_delete id s)
exec (thread_activate id) s = drop_reply (vm_thread_activate id s)
exec (thread_terminate fuel id) s = drop_reply (vm_thread_terminate fuel id s)
exec (thread_id has_ref) s = drop_reply (vm_thread_id has_ref s)
exec (thread_state id has_ref) s = drop_reply (vm_thread_state id has_ref s)
exec (thread_sleep tick) s = drop_reply (vm_thread_sleep tick s)
exec (file_open name flags mode has_ref) s = drop_reply (vm_file_open name flags mode has_ref s)
exec (file_close fd) s = drop_reply (vm_file_close fd s)
exec (file_read fd address length) s = drop_reply (vm_file_read fd address length s)
exec (file_write fd address length) s = drop_reply (vm_file_write fd address length s)
exec (file_seek fd offset whence has_ref) s = drop_reply (vm_file_seek fd offset whence has_ref s)
exec (entry_returns fuel) s = safe_entry_end fuel s

-- What the calls do not check: the range of a priority, and that a message fits into its buffer.
abbrev pub Allowed : Call → Type 0
Allowed (thread_create entry param memsize prio has_ref) = (1 ≤ prio) × (prio ≤ 3)
Allowed (file_open name flags mode has_ref) =
    (l : List ℕ) → name ≡ some l → length l + 9 ≤ payload_capacity
Allowed (file_write fd address size) = (n : ℕ) → size ≡ some n → n + 8 ≤ payload_capacity
Allowed _ = Unit {0}

-- SMachineContext: a thread that has not run yet starts its entry function; another goes on where it
-- was switched out.
pub data Context : Type 0 where
  fresh : Context
  saved : (ThreadStore → Run (Unit {0})) → Context

-- The running thread is in the code of the module, or in a call or an interrupt.
pub data System : Type 0 where
  user : ThreadStore → (ℕ → Context) → System
  kernel : Run (Unit {0}) → (ℕ → Context) → System

-- longjmp to a context
abbrev pub resume : Context → ThreadStore → (ℕ → Context) → System
resume fresh s cs = user (safe_entry_begin s) cs
resume (saved k) s cs = kernel (k s) cs

pub data Step : System → System → Type 0 where
  call :
      (x : Call) (s : ThreadStore) (cs : ℕ → Context)
      → is_idle (s.tcb s.current_thread).entry_function ≡ false
      → Allowed x
      → Step (user s cs) (kernel (exec x s) cs)
  timer : (s : ThreadStore) (cs : ℕ → Context) → Step (user s cs) (kernel (timer_interrupt s) cs)
  reply :
      (t result : ℕ) (s : ThreadStore) (cs : ℕ → Context)
      → Step (user s cs) (user (machine_file_io_callback t result s) cs)
  return : (s : ThreadStore) (cs : ℕ → Context) → Step (kernel (done tt s) cs) (user s cs)
  switch :
      (t : ℕ) (s : ThreadStore) (k : ThreadStore → Run (Unit {0})) (cs : ℕ → Context)
      → Step
          (kernel (switched t s k) cs)
          (resume (update cs t (saved k) s.current_thread) s (update cs t (saved k)))

pub data Reach (a : System) : System → Type 0 where
  here : Reach a a
  next : {b c : System} → Reach a b → Step b c → Reach a c

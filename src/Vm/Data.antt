-- ===== src/Vm/Data.antt =====
-- UtilityFunctions.h and VirtualMachine.h: the constants, and the fields of the three classes.
-- A TCB* or a Mutex* is the number of the object in the order of allocation; NULL is `none`.
use project.Prelude.{ℕ, List, Option, Bool}
use project.Machine.Data.{Machine}

-- TVMStatus
abbrev pub failure : ℕ
failure = 0

abbrev pub success : ℕ
success = 1

abbrev pub invalid_parameter : ℕ
invalid_parameter = 2

abbrev pub invalid_id : ℕ
invalid_id = 3

abbrev pub invalid_state : ℕ
invalid_state = 4

-- VM_THREAD_ID_INVALID, the unsigned -1
abbrev pub thread_id_invalid : ℕ
thread_id_invalid = 4294967295

-- TVMTick
abbrev pub timeout_infinite : ℕ
timeout_infinite = 0

abbrev pub timeout_immediate : ℕ
timeout_immediate = 4294967295

-- TVMThreadPriority
abbrev pub priority_normal : ℕ
priority_normal = 2

abbrev pub priority_high : ℕ
priority_high = 3

-- TVMThreadState
pub data ThreadState : Type 0 where
  dead running ready waiting : ThreadState

-- TVMThreadEntry: the address of VMStart, that of idle, or a function of the module.
pub data Entry : Type 0 where
  vm_start idle : Entry
  module_function : ℕ → Entry

abbrev pub is_idle : Entry → Bool
is_idle idle = Bool.true
is_idle _ = Bool.false

abbrev pub is_dead : ThreadState → Bool
is_dead dead = Bool.true
is_dead _ = Bool.false

abbrev pub is_running : ThreadState → Bool
is_running running = Bool.true
is_running _ = Bool.false

pub record MutexInfo : Type 0 where
  pub mutex : ℕ
  pub waiting : Bool

-- class TCB. `stack_base` is the size of the stack that is allocated.
pub record Tcb : Type 0 where
  pub thread_id : ℕ
  pub priority : ℕ
  pub state : ThreadState
  pub entry_function : Entry
  pub entry_param : ℕ
  pub deleted : Bool
  pub stack_base : ℕ
  pub stack_size : ℕ
  pub ticks_to_sleep : ℕ
  pub waiting_on_io : Bool
  pub file_io_result : ℕ
  pub mutexes : List MutexInfo

-- class Mutex. The index of a priority list is a priority less one.
pub record Mutex : Type 0 where
  pub id : ℕ
  pub deleted : Bool
  pub owner : Option ℕ
  pub priority_lists : ℕ → List ℕ

-- class ThreadStore, with the heaps of the objects that it points to.
pub record ThreadStore : Type 0 where
  pub tcb : ℕ → Tcb
  pub tcbs : ℕ
  pub mutex : ℕ → Mutex
  pub mutexes : ℕ
  pub num_threads : ℕ
  pub num_mutexes : ℕ
  pub idle_thread_id : ℕ
  pub current_thread : ℕ
  pub ready_lists : ℕ → List ℕ
  pub wait_list : List ℕ
  pub dead_list : List ℕ
  pub all_threads : List ℕ
  pub mutex_vector : List ℕ
  -- VMLibraryHandle is not NULL
  pub module_loaded : Bool
  pub machine : Machine

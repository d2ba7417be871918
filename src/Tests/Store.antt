-- ===== src/Tests/Store.antt =====
-- UtilityFunctions.h: a thread store with three threads and two mutexes. The main thread runs and
-- holds the first mutex; a worker of high priority waits for it, for five ticks at most.
use project.Prelude.{
  ℕ, zero, suc, ◌+◌, ◌≤◌, ◌<◌, refl, true, false, none, some, List, [], ◌∷◌, arith,
}
use project.Machine.Data.{Machine}
use project.Vm.Data.{
  running, ready, waiting, vm_start, idle, module_function, Tcb, Mutex, ThreadStore,
}
use project.Safety.Inv.{Inv, entries, owns, queued}

abbrev pub machine : Machine
machine = record {
  initialized = true;
  mask = λ _. false;
  request_id = 0;
  pending = [];
  requests = [];
  alarm = some 100000;
  memory = λ _. 0;
}

abbrev pub threads : ℕ → Tcb
threads zero = record {
  thread_id = 0;
  priority = 2;
  state = running;
  entry_function = vm_start;
  entry_param = 0;
  deleted = false;
  stack_base = 1;
  stack_size = 0;
  ticks_to_sleep = 0;
  waiting_on_io = false;
  file_io_result = 0;
  mutexes = record { mutex = 0; waiting = false } ∷ [];
}
threads (suc zero) = record {
  thread_id = 1;
  priority = 0;
  state = ready;
  entry_function = idle;
  entry_param = 0;
  deleted = false;
  stack_base = 1048576;
  stack_size = 1048576;
  ticks_to_sleep = 0;
  waiting_on_io = false;
  file_io_result = 0;
  mutexes = [];
}
threads (suc (suc t)) = record {
  thread_id = 2;
  priority = 3;
  state = waiting;
  entry_function = module_function 7;
  entry_param = 0;
  deleted = false;
  stack_base = 4096;
  stack_size = 4096;
  ticks_to_sleep = 5;
  waiting_on_io = false;
  file_io_result = 0;
  mutexes = record { mutex = 0; waiting = true } ∷ [];
}

abbrev pub waiting_worker : ℕ → List ℕ
waiting_worker zero = []
waiting_worker (suc zero) = []
waiting_worker (suc (suc zero)) = 2 ∷ []
waiting_worker (suc (suc (suc i))) = []

abbrev pub locks : ℕ → Mutex
locks zero = record { id = 0; deleted = false; owner = some 0; priority_lists = waiting_worker }
locks (suc m) = record { id = 1; deleted = false; owner = none; priority_lists = λ _. [] }

abbrev pub ready_threads : ℕ → List ℕ
ready_threads zero = 1 ∷ []
ready_threads (suc p) = []

abbrev pub store : ThreadStore
store = record {
  tcb = threads;
  tcbs = 3;
  mutex = locks;
  mutexes = 2;
  num_threads = 2;
  num_mutexes = 1;
  idle_thread_id = 1;
  current_thread = 0;
  ready_lists = ready_threads;
  wait_list = 2 ∷ [];
  dead_list = [];
  all_threads = 0 ∷ 1 ∷ 2 ∷ [];
  mutex_vector = 0 ∷ 1 ∷ [];
  module_loaded = true;
  machine = machine;
}

listed :
    (t m : ℕ) → t < 3 → entries m (threads t).mutexes ≤ owns t (locks m).owner + queued t (locks m)
listed zero zero h = omega arith
listed zero (suc m) h = ground arith
listed (suc zero) zero h = omega arith
listed (suc zero) (suc m) h = omega arith
listed (suc (suc zero)) zero h = omega arith
listed (suc (suc zero)) (suc m) h = ground arith
listed (suc (suc (suc t))) m h = absurd (omega (arith, h))

pub store-Inv : Inv store
store-Inv = record {
  priorities = record {
    at_most = elim [
      | zero ↦ λ h. omega arith
      | suc zero ↦ λ h. omega arith
      | suc (suc t) ↦ λ h. omega arith
    ];
    at_least = elim [
      | zero ↦ λ h k. omega arith
      | suc zero ↦ λ h k. cc
      | suc (suc t) ↦ λ h k. omega arith
    ];
  };
  lists = record {
    current = omega arith;
    ready = elim [ zero ↦ (omega arith, tt) | suc p ↦ tt ];
    wait = (omega arith, tt);
    buried = tt;
    vector = (omega arith, (omega arith, tt));
    idle_ready = refl;
  };
  locks = record {
    listed = listed;
    allocated = elim [
      | zero ↦ λ h. (omega arith, tt)
      | suc zero ↦ λ h. tt
      | suc (suc t) ↦ λ h. (omega arith, tt)
    ];
    free = elim [ zero ↦ λ h e. cc | suc m ↦ λ h e. (refl, refl, refl) ];
    owner = elim [ zero ↦ λ h. omega arith | suc m ↦ λ h. tt ];
    waiters = elim [
      | zero ↦ elim [
        | zero ↦ λ h. tt
        | suc zero ↦ λ h. tt
        | suc (suc zero) ↦ λ h. (omega arith, tt)
        | suc (suc (suc i)) ↦ λ h. tt
      ]
      | suc m ↦ λ i h. tt
    ];
  };
}

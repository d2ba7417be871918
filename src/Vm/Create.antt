-- ===== src/Vm/Create.antt =====
-- UtilityFunctions.cpp: the constructors, ThreadStore::insert and the two first threads.
use project.Prelude.{
  ℕ, ◌+◌, ◌%◌, [], ◌∷◌, ◌++◌, Option, none, some, Bool, false, ltb, if◌then◌else◌, update, is_empty,
}
use project.Machine.Data.{Machine}
use project.Vm.Data.{
  ThreadState, dead, running, ready, waiting, Entry, vm_start, idle, module_function,
  priority_normal, Tcb, Mutex, ThreadStore,
}
use project.Vm.Schedule.{push_ready}

-- The state of a new thread, and the size of the stack that is allocated for it.
unfoldable pub first_state : Entry → ThreadState
first_state vm_start = running
first_state idle = ready
first_state (module_function f) = dead

unfoldable pub stack_for : Entry → ℕ → ℕ
stack_for vm_start memsize = 1
stack_for _ memsize = memsize

-- new TCB: the store with the object, its address and the identifier that is written to `*tid`.
unfoldable pub new_tcb : Entry → ℕ → ℕ → ℕ → ThreadStore → ThreadStore × ℕ × ℕ
new_tcb entry param memsize prio s =
    (record s { tcb = update s.tcb s.tcbs thread; tcbs = s.tcbs + 1 }, s.tcbs, thread.thread_id)
  where
    thread : Tcb
    thread = record {
      thread_id = (s.num_threads + 1) % 4294967296;
      priority = prio;
      state = first_state entry;
      entry_function = entry;
      entry_param = param;
      deleted = false;
      stack_base = stack_for entry memsize;
      stack_size = memsize;
      ticks_to_sleep = 0;
      waiting_on_io = false;
      file_io_result = 0;
      mutexes = [];
    }

-- The switch of ThreadStore::insert(TCB*); the case of a waiting thread falls through to the next.
unfoldable pub insert_by : ℕ → ThreadState → ThreadStore → Option ThreadStore
insert_by t dead s = some (record s { dead_list = s.dead_list ++ t ∷ [] })
insert_by t waiting s = push_ready t (record s { wait_list = s.wait_list ++ t ∷ [] })
insert_by t ready s = push_ready t s
insert_by t running s = some s

abbrev pub count_thread : Option ThreadStore → Option ThreadStore
count_thread none = none
count_thread (some s) = some (record s { num_threads = (s.num_threads + 1) % 4294967296 })

unfoldable pub insert_thread : ℕ → ThreadStore → Option ThreadStore
insert_thread t s =
    count_thread (insert_by t (s.tcb t).state (record s { all_threads = s.all_threads ++ t ∷ [] }))

-- new Mutex: `deleted` is not initialised, so that its value is whatever the memory holds.
unfoldable pub new_mutex : Bool → ThreadStore → ThreadStore × ℕ
new_mutex garbage s =
    (record s { mutex = update s.mutex s.mutexes x; mutexes = s.mutexes + 1 }, s.mutexes)
  where
    x : Mutex
    x = record {
      id = (s.num_mutexes + 1) % 4294967296;
      deleted = garbage;
      owner = none;
      priority_lists = λ _. [];
    }

unfoldable pub insert_mutex : ℕ → ThreadStore → ThreadStore
insert_mutex m s = record s {
  mutex_vector = s.mutex_vector ++ m ∷ [];
  num_mutexes = (s.num_mutexes + 1) % 4294967296;
}

-- new ThreadStore: the two counters start at the unsigned -1. The heaps and the running thread are
-- not set; nothing reads them before the first thread is there.
unfoldable pub new_thread_store : (ℕ → Tcb) → (ℕ → Mutex) → ℕ → Bool → Machine → ThreadStore
new_thread_store tcb mutex current loaded machine = record {
  tcb = tcb;
  tcbs = 0;
  mutex = mutex;
  mutexes = 0;
  num_threads = 4294967295;
  num_mutexes = 4294967295;
  idle_thread_id = 0;
  current_thread = current;
  ready_lists = λ _. [];
  wait_list = [];
  dead_list = [];
  all_threads = [];
  mutex_vector = [];
  module_loaded = loaded;
  machine = machine;
}

abbrev pub set_current : ℕ → Option ThreadStore → Option ThreadStore
set_current t none = none
set_current t (some s) = some (record s { current_thread = t })

-- The parameter is the address of a local variable.
unfoldable pub create_main_thread : ℕ → ThreadStore → Option ThreadStore
create_main_thread param s =
    let (s', t, id) = new_tcb vm_start param 0 priority_normal s in
    set_current t (insert_thread t s')

unfoldable pub create_idle_thread : ThreadStore → ThreadStore
create_idle_thread s =
    let (s', t, id) = new_tcb idle 0 1048576 0 s in
    if is_empty (s.ready_lists 0)
    then record s' {
      idle_thread_id = id;
      ready_lists = update s'.ready_lists 0 (s'.ready_lists 0 ++ t ∷ []);
      all_threads = s'.all_threads ++ t ∷ [];
      num_threads = (s'.num_threads + 1) % 4294967296;
    }
    else s

-- The destructor: the containers are emptied.
unfoldable pub delete_thread_store : ThreadStore → ThreadStore
delete_thread_store s = record s {
  all_threads = [];
  mutex_vector = [];
  ready_lists = λ i. if ltb i 4 then [] else s.ready_lists i;
  wait_list = [];
  dead_list = [];
}

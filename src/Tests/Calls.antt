-- ===== src/Tests/Calls.antt =====
-- VirtualMachine.cpp, UtilityFunctions.cpp and main.c: more runs at concrete inputs.
use project.Prelude.{
  ℕ, zero, suc, ◌-◌, ◌≡◌, refl, true, false, Option, none, some, List, [], ◌∷◌, ◌++◌, arith, ltb,
  if◌then◌else◌, length, take,
}
use project.Machine.Data.{Message, Machine, request_close, request_read, find}
use project.Machine.Contexts.{Process, other, context_create}
use project.Machine.Server.{PendingRead}
use project.Machine.Codec.{set_int}
use project.Machine.Poll.{perform_read}
use project.Vm.Data.{ThreadStore}
use project.Vm.Run.{Run, done, switched, undefined, unfinished, aborted}
use project.Vm.Schedule.{switch_to_new_thread, are_all_lists_empty}
use project.Vm.Locks.{release, lock}
use project.Vm.Threads.{terminate, find_mutex_by_id}
use project.Vm.Timer.{timer_event}
use project.Api.Mutexes.{vm_mutex_acquire}
use project.Api.Main.{Text, parse, starts, same_text, is_positive}
use project.Api.Print.{small_buffer_size, vm_file_print}
use project.Spec.Print.{formatted}
use project.Safety.Inv.{Inv}
use project.Spec.Run.{At}
use project.Spec.Schedule.{candidates}
use project.Spec.Switch.{IsSwitched, switch_to_new_thread-IsSwitched}
use project.Spec.Terminated.{terminate-first}
use project.Spec.Waiters.{Reaches, released, over, IsQueued, Turns-owner, lock-IsQueued}
use project.Spec.Mutexes.{waiters, release-IsServed}
use project.Spec.Acquire.{Always, IsAcquired, vm_mutex_acquire-IsAcquired}
use project.Spec.Timer.{MutexesKept, timer_event-Kept}
use project.Spec.Files.{IsRequested, noted, Completes, vm_file_read-IsRequested}
use project.Spec.Stale.{IsLost, perform_read-IsLost}
use project.Spec.Replies.{read_reply, reader}
use project.Spec.Contexts.{IsCreated, context_create-IsCreated}
use project.Spec.CommandLine.{
  Setting, tick_time, machine_time, render, tick_of, machine_of, IsReady, parse-render,
  parse-IsReady,
}
use project.Spec.Written.{IsWritten, vm_file_print-IsWritten}
use project.Tests.Store.{machine, threads, waiting_worker, store, store-Inv}
use project.Tests.Machine.{counting}

switch_to_new_thread-IsSwitched_example :
    At (IsSwitched (store.tcb 0).state 2 store) (switch_to_new_thread 2 store)
switch_to_new_thread-IsSwitched_example =
    switch_to_new_thread-IsSwitched 2 store (λ e. ground (arith, e)) refl (omega arith)

-- The worker is ready, and there are no mutexes.
abbrev high_ready : ℕ → List ℕ
high_ready zero = 1 ∷ []
high_ready (suc zero) = []
high_ready (suc (suc zero)) = []
high_ready (suc (suc (suc p))) = 2 ∷ []

abbrev lone : ThreadStore
lone = record store {
  tcb = λ t. record (threads t) { mutexes = [] };
  mutexes = 0;
  ready_lists = high_ready;
  wait_list = [];
  mutex_vector = [];
}

lone-Inv : Inv lone
lone-Inv = record {
  priorities = record {
    at_most = store-Inv.priorities.at_most;
    at_least = store-Inv.priorities.at_least;
  };
  lists = record {
    current = omega arith;
    ready = elim [
      | zero ↦ (omega arith, tt)
      | suc zero ↦ tt
      | suc (suc zero) ↦ tt
      | suc (suc (suc p)) ↦ (omega arith, tt)
    ];
    wait = tt;
    buried = tt;
    vector = tt;
    idle_ready = refl;
  };
  locks = record {
    listed = λ t m h. omega arith;
    allocated = λ t h. tt;
    free = λ m h e. absurd (omega (arith, h));
    owner = λ m h. absurd (omega (arith, h));
    waiters = λ m i h. absurd (omega (arith, h));
  };
}

terminate-first_example : At (λ u. u.current_thread ≡ 2) (terminate 0 2 lone)
unfolding are_all_lists_empty candidates
terminate-first_example = terminate-first 0 2 lone lone-Inv (omega arith) refl refl refl refl

abbrev reached : Run (Unit {0}) → ThreadStore
reached (done a s) = s
reached (switched t s k) = s
reached undefined = store
reached unfinished = store
reached aborted = store

reaches : (P : ThreadStore → Type 0) (r : Run (Unit {0})) → At P r → Reaches (reached r) r
reaches P (done a s) h = refl
reaches P (switched t s k) h = refl
reaches P undefined h = h
reaches P unfinished h = h
reaches P aborted h = h

Turns-owner_example : ((reached (release 0 store)).mutex 0).owner ≡ some 2
unfolding waiters
Turns-owner_example =
    Turns-owner 0 0 2 store (reached (release 0 store))
      (released (reached (release 0 store)) store-Inv (omega arith) (λ e. cc)
        (reaches _ (release 0 store) (release-IsServed 0 store store-Inv (omega arith) (λ e. cc)))
        refl over)
      refl

lock-IsQueued_example : At (IsQueued 0 0 1 waiting_worker) (lock 0 0 5 store)
lock-IsQueued_example = lock-IsQueued 0 5 store store-Inv (omega arith) refl (λ e. cc) refl

vm_mutex_acquire-IsAcquired_example :
    Always (IsAcquired 0 store (find_mutex_by_id 0 store)) (vm_mutex_acquire 0 5 store)
vm_mutex_acquire-IsAcquired_example = vm_mutex_acquire-IsAcquired 0 5 store

timer_event-Kept_example : At (MutexesKept store) (timer_event store)
timer_event-Kept_example = timer_event-Kept store store-Inv

abbrev hi : List ℕ
hi = 104 ∷ 105 ∷ []

vm_file_read-IsRequested_example :
    (message : Message) × (m : Machine) × IsRequested counting 3 4096 2 store message m
    × ((perform_read counting request_read (some (noted message 3 2, [])) (0, [], [])
          ≡ some (1, [], read_reply message.request_id hi ∷ []))
        × ((x : ThreadStore)
            → find message.request_id x.machine.pending ≡ some (reader 0 4096)
            → Completes message.request_id 0 4096 machine.mask hi x))
vm_file_read-IsRequested_example =
    vm_file_read-IsRequested counting 3 4096 2 0 1 hi [] [] [] store store-Inv refl (omega arith)
      (omega arith) refl (omega arith)

abbrev waiting_read : PendingRead
waiting_read = record { request_id = 9; file_descriptor = 3; size = 2 }

abbrev expecting : ThreadStore
expecting = record store { machine = record machine { pending = (9, reader 2 4096) ∷ [] } }

perform_read-IsLost_example :
    (reply : Message) × (u : ThreadStore) × (perform_read counting request_close
        (some (waiting_read, []))
        (0, [], [])
      ≡ some (1, [], reply ∷ []))
    × (reply.payload ≡ set_int 2 ++ hi)
    × IsLost 2 2 reply expecting u
unfolding find
perform_read-IsLost_example =
    perform_read-IsLost counting request_close 2 4096 waiting_read [] [] 0 1 (some hi) expecting
      refl (omega arith) refl refl

abbrev process : Process
process = record {
  mask = λ _. false;
  action = other 7;
  alt_stack = record { sp = 0; size = 0; disabled = true };
  pending_usr1 = false;
  stack = (1, 0);
  creation = record {
    create_ref = 0;
    function = 0;
    param = 0;
    signals = λ _. false;
    called = false;
  };
  contexts = λ _. none;
  caller = none;
}

context_create-IsCreated_example :
    (q : Process) × (context_create 1 64 7 0 4096 4096 process ≡ some q)
    × IsCreated 64 7 0 4096 4096 process q
context_create-IsCreated_example = context_create-IsCreated 1 64 7 0 4096 4096 process (omega arith)

-- A notation for numbers in one byte.
abbrev scan_byte : Text → Option ℕ
scan_byte [] = none
scan_byte (n ∷ text) = some n

abbrev print_byte : ℕ → Text
print_byte n = n ∷ []

abbrev settings : List Setting
settings = tick_time 5 ∷ machine_time 7 ∷ tick_time 9 ∷ []

abbrev module_name : Text
module_name = 97 ∷ []

parse-render_example :
    parse scan_byte (render print_byte settings (module_name ∷ [])) 100 100
    ≡ starts (tick_of settings 100) (machine_of settings 100) (module_name ∷ [])
unfolding is_positive same_text
parse-render_example =
    parse-render scan_byte print_byte settings module_name [] 100 100 (λ n p. refl)
      (refl, (refl, (refl, tt))) refl refl

parse-IsReady_example : IsReady (parse scan_byte (module_name ∷ []) 100 100)
unfolding is_positive
parse-IsReady_example = parse-IsReady scan_byte (module_name ∷ []) 100 100 refl refl

abbrev letters : ℕ → List ℕ
letters zero = []
letters (suc n) = 120 ∷ letters n

vm_file_print-IsWritten_example :
    (message : Message) × (m : Machine) × IsWritten counting 3
      (if ltb (length (letters 300)) small_buffer_size
        then letters 300
        else take (length (letters 300) - 1) (letters 300) ++ 0 ∷ [])
      (formatted 1000 2000 (letters 300) store).0
      message
      m
      (vm_file_print 1000 2000 3 (letters 300) (some (letters 300)) store)
vm_file_print-IsWritten_example =
    vm_file_print-IsWritten counting 1000 2000 3 (letters 300) (some (letters 300)) store store-Inv
      refl (omega arith) (omega arith) (λ h. refl)

-- ===== src/Tests/Vm.antt =====
-- UtilityFunctions.cpp at a concrete store.
use project.Prelude.{ℕ, zero, suc, ◌+◌, ◌≤◌, ◌<◌, ◌≡◌, refl, some, [], ◌∷◌, arith}
use project.Machine.Data.{find}
use project.Vm.Data.{Tcb, ThreadStore, waiting}
use project.Vm.Tcb.{write_tcb, is_waiting_on_mutex, last_info}
use project.Vm.Run.{done, bind}
use project.Vm.Locks.{lock, release}
use project.Vm.Schedule.{are_all_lists_empty, schedule}
use project.Vm.Reply.{handle_reply}
use project.Safety.Inv.{Inv, Ensures, entries, owns, queued, write_tcb-Inv}
use project.Spec.Run.{At, first}
use project.Spec.Schedule.{candidates, schedule-first}
use project.Spec.Mutexes.{waiters, IsServed, release-IsServed}
use project.Spec.Replies.{IsDelivered, read_reply, reader, handle_reply-IsDelivered}
use project.Spec.RoundTrip.{release-lock}
use project.Spec.Sleep.{IsAsleep}
use project.Spec.Alarm.{IsTicked, tick_all-IsTicked}
use project.Vm.Timer.{tick_all}
use project.Spec.Rounds.{Ends, release_mutexes-Ends}
use project.Vm.Locks.{release_mutexes}
use project.Tests.Store.{threads, locks, machine, waiting_worker, ready_threads, store, store-Inv}

release-IsServed_example : At (IsServed 0 (waiters waiting_worker)) (release 0 store)
release-IsServed_example = release-IsServed 0 store store-Inv (omega arith) (λ e. cc)

-- The main thread sleeps: the idle thread is next.
abbrev asleep : ThreadStore
asleep = write_tcb 0 (record (store.tcb 0) { state = waiting }) store

asleep-Inv : Inv asleep
asleep-Inv =
    write_tcb-Inv 0 (record (store.tcb 0) { state = waiting }) store refl refl refl store-Inv

schedule-first_example :
    At (λ u. some u.current_thread ≡ first (candidates 3 ready_threads)) (schedule 3 asleep)
unfolding are_all_lists_empty
schedule-first_example = schedule-first 3 asleep asleep-Inv (omega arith) refl

release-lock_example : bind (lock 1 0 0 store) (λ _. release 1) ≡ done tt store
release-lock_example = release-lock 1 0 store store-Inv (omega arith) refl

abbrev reading : ThreadStore
reading = record store { machine = record machine { pending = (9, reader 2 4096) ∷ [] } }

handle_reply-IsDelivered_example :
    (u : ThreadStore) × (handle_reply (read_reply 9 (104 ∷ 105 ∷ [])) reading ≡ some u)
    × IsDelivered 9 2 4096 (104 ∷ 105 ∷ []) u
handle_reply-IsDelivered_example =
    handle_reply-IsDelivered 9 2 4096 (104 ∷ 105 ∷ []) reading (omega arith) (omega arith) found
  where
    found : find 9 reading.machine.pending ≡ some (reader 2 4096)
    found = unfold find in refl

-- The worker waits for nothing but the time.
abbrev dozing_threads : ℕ → Tcb
dozing_threads zero = threads zero
dozing_threads (suc zero) = threads (suc zero)
dozing_threads (suc (suc t)) = record (threads (suc (suc t))) { mutexes = [] }

abbrev dozing : ThreadStore
dozing = record store { tcb = dozing_threads }

dozing_listed :
    (t m : ℕ)
    → t < 3
    → entries m (dozing_threads t).mutexes ≤ owns t (locks m).owner + queued t (locks m)
dozing_listed zero m h = store-Inv.locks.listed zero m h
dozing_listed (suc zero) m h = store-Inv.locks.listed (suc zero) m h
dozing_listed (suc (suc t)) m h = omega arith

dozing-Inv : Inv dozing
dozing-Inv = record {
  priorities = record {
    at_most = elim [
      | zero ↦ store-Inv.priorities.at_most zero
      | suc zero ↦ store-Inv.priorities.at_most (suc zero)
      | suc (suc t) ↦ store-Inv.priorities.at_most (suc (suc t))
    ];
    at_least = elim [
      | zero ↦ store-Inv.priorities.at_least zero
      | suc zero ↦ store-Inv.priorities.at_least (suc zero)
      | suc (suc t) ↦ store-Inv.priorities.at_least (suc (suc t))
    ];
  };
  lists = record {
    current = store-Inv.lists.current;
    ready = store-Inv.lists.ready;
    wait = store-Inv.lists.wait;
    buried = store-Inv.lists.buried;
    vector = store-Inv.lists.vector;
    idle_ready = store-Inv.lists.idle_ready;
  };
  locks = record {
    listed = dozing_listed;
    allocated = elim [
      | zero ↦ store-Inv.locks.allocated zero
      | suc zero ↦ store-Inv.locks.allocated (suc zero)
      | suc (suc t) ↦ λ h. tt
    ];
    free = store-Inv.locks.free;
    owner = store-Inv.locks.owner;
    waiters = store-Inv.locks.waiters;
  };
}

dozing-IsAsleep : IsAsleep 5 2 dozing
unfolding is_waiting_on_mutex last_info
dozing-IsAsleep = record { left = refl; no_io = refl; no_mutex = refl; priority = omega arith }

tick_all-IsTicked_example : Ensures (IsTicked 5 2 dozing) (tick_all (2 ∷ []) dozing)
tick_all-IsTicked_example =
    tick_all-IsTicked 5 2 dozing dozing-Inv dozing-IsAsleep (omega arith) refl

release_mutexes-Ends_example : Ends 0 0 1 (release_mutexes 1 0 store)
release_mutexes-Ends_example = release_mutexes-Ends 1 0 store (omega arith)

-- ===== src/Vm/Timer.antt =====
-- UtilityFunctions.cpp: ThreadStore::timerEvent, timerInterrupt and machineFileIOCallback.
use project.Prelude.{
  ℕ, Bool, true, false, not, ◌&&◌, Option, none, some, List, [], ◌∷◌, ltb, ◌==◌, if◌then◌else◌,
  is_empty,
}
use project.Machine.Signals.{suspend_signals, resume_signals}
use project.Machine.Requests
use project.Vm.Data.{ready, is_idle, priority_high, ThreadStore}
use project.Vm.Run.{Run, done, undefined, M, bind}
use project.Vm.Tcb.{
  set_state, sleep, set_waiting_on_mutex, get_waiting_mutex, is_waiting_on_mutex,
  set_file_io_result, set_is_waiting_on_io, decrement_ticks_to_sleep,
}
use project.Vm.Schedule.{push_ready, schedule, are_all_lists_empty}

abbrev pub is_owner : ℕ → Option ℕ → Bool
is_owner t none = false
is_owner t (some o) = t == o

-- The thread waits on a mutex that is its own by now.
abbrev pub has_acquired : ℕ → Option ℕ → ThreadStore → Bool
has_acquired t none s = false
has_acquired t (some m) s = is_owner t (s.mutex m).owner

unfoldable pub check_mutex : ℕ → ThreadStore → ThreadStore
check_mutex t s =
    if is_waiting_on_mutex t s && has_acquired t (get_waiting_mutex t s) s
    then sleep t 0 (set_waiting_on_mutex t false s)
    else s

abbrev pub woken : Option ThreadStore → Option (ThreadStore × Bool)
woken none = none
woken (some s) = some (s, false)

-- One round of the loop over the wait list: the new store, and whether the thread stays on the list.
unfoldable pub tick_thread : ℕ → ThreadStore → Option (ThreadStore × Bool)
tick_thread t s =
    if (s.tcb t).waiting_on_io
    then some (s, true)
    else if not ((s.tcb t).ticks_to_sleep == 4294967295) && ltb 0 (s.tcb t).ticks_to_sleep
    then some (decrement_ticks_to_sleep t s, true)
    else if (s.tcb t).ticks_to_sleep == 4294967295
    then some (s, true)
    else woken (push_ready t (set_state t ready s))

abbrev pub keep_if : ℕ → Bool → Option (ThreadStore × List ℕ) → Option (ThreadStore × List ℕ)
keep_if t stays none = none
keep_if t stays (some (s, kept)) = some (s, if stays then t ∷ kept else kept)

abbrev pub then_tick :
    ℕ
    → Option (ThreadStore × Bool)
    → (ThreadStore → Option (ThreadStore × List ℕ))
    → Option (ThreadStore × List ℕ)
then_tick t none rest = none
then_tick t (some (s, stays)) rest = keep_if t stays (rest s)

-- The loop over the wait list, and the threads that stay on it.
unfoldable pub tick_all : List ℕ → ThreadStore → Option (ThreadStore × List ℕ)
tick_all [] s = some (s, [])
tick_all (t ∷ ts) s = then_tick t (tick_thread t (check_mutex t s)) (tick_all ts)

unfoldable pub is_over : ThreadStore → Bool
is_over s =
    are_all_lists_empty s && is_empty s.wait_list && is_idle (s.tcb s.current_thread).entry_function

-- Nothing is left to run: the module is unloaded and the machine stopped.
abbrev pub schedule_or_stop : Option (ThreadStore × List ℕ) → Run (Unit {0})
schedule_or_stop none = undefined
schedule_or_stop (some (s, kept)) =
    let s' : ThreadStore = record s { wait_list = kept } in
    if is_over s'
    then done tt (record s' { module_loaded = false; machine = Requests.terminate s'.machine })
    else schedule priority_high s'

unfoldable pub timer_event : M (Unit {0})
timer_event s = schedule_or_stop (tick_all s.wait_list s)

unfoldable pub timer_interrupt : M (Unit {0})
timer_interrupt s =
    let (machine', saved) = suspend_signals s.machine in
    bind (timer_event (record s { machine = machine' }))
      λ _ s'. done tt (record s' { machine = resume_signals saved s'.machine })

unfoldable pub machine_file_io_callback : ℕ → ℕ → ThreadStore → ThreadStore
machine_file_io_callback t result s = set_is_waiting_on_io t false (set_file_io_result t result s)

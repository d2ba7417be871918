-- ===== src/Vm/Tcb.antt =====
-- UtilityFunctions.cpp: the methods of class TCB.
use project.Prelude.{
  ℕ, ◌+◌, ◌%◌, List, [], ◌∷◌, ◌++◌, Option, none, some, Bool, false, ◌==◌, if◌then◌else◌, update,
}
use project.Vm.Data.{ThreadState, waiting, MutexInfo, Tcb, ThreadStore}

-- A write through a TCB*.
abbrev pub write_tcb : ℕ → Tcb → ThreadStore → ThreadStore
write_tcb t b s = record s { tcb = update s.tcb t b }

unfoldable pub set_is_deleted : ℕ → Bool → ThreadStore → ThreadStore
set_is_deleted t d s = write_tcb t (record (s.tcb t) { deleted = d }) s

unfoldable pub set_file_io_result : ℕ → ℕ → ThreadStore → ThreadStore
set_file_io_result t result s = write_tcb t (record (s.tcb t) { file_io_result = result }) s

unfoldable pub set_is_waiting_on_io : ℕ → Bool → ThreadStore → ThreadStore
set_is_waiting_on_io t w s = write_tcb t (record (s.tcb t) { waiting_on_io = w }) s

unfoldable pub set_state : ℕ → ThreadState → ThreadStore → ThreadStore
set_state t x s = write_tcb t (record (s.tcb t) { state = x }) s

unfoldable pub sleep : ℕ → ℕ → ThreadStore → ThreadStore
sleep t tick s = write_tcb t (record (s.tcb t) { state = waiting; ticks_to_sleep = tick }) s

-- An unsigned subtraction: 0 wraps to 2^32 - 1.
unfoldable pub decrement_ticks_to_sleep : ℕ → ThreadStore → ThreadStore
decrement_ticks_to_sleep t s =
    write_tcb t (record (s.tcb t) { ticks_to_sleep = (ticks + 4294967295) % 4294967296 }) s
  where
    ticks : ℕ
    ticks = (s.tcb t).ticks_to_sleep

-- The list of a thread's mutexes, oldest first.
unfoldable pub write_mutexes : ℕ → List MutexInfo → ThreadStore → ThreadStore
write_mutexes t infos s = write_tcb t (record (s.tcb t) { mutexes = infos }) s

unfoldable pub add_mutex : ℕ → ℕ → Bool → ThreadStore → ThreadStore
add_mutex t m w s = write_mutexes t ((s.tcb t).mutexes ++ record { mutex = m; waiting = w } ∷ []) s

-- The first entry of the mutex goes.
unfoldable pub remove_info : ℕ → List MutexInfo → List MutexInfo
remove_info m [] = []
remove_info m (i ∷ infos) = if i.mutex == m then infos else i ∷ remove_info m infos

unfoldable pub remove_mutex : ℕ → ℕ → ThreadStore → ThreadStore
remove_mutex t m s = write_mutexes t (remove_info m (s.tcb t).mutexes) s

-- mutexes->back()
unfoldable pub last_info : List MutexInfo → Option MutexInfo
last_info [] = none
last_info (i ∷ []) = some i
last_info (i ∷ j ∷ infos) = last_info (j ∷ infos)

abbrev mutex_of : Option MutexInfo → Option ℕ
mutex_of none = none
mutex_of (some i) = some i.mutex

abbrev waiting_of : Option MutexInfo → Bool
waiting_of none = false
waiting_of (some i) = i.waiting

unfoldable pub get_waiting_mutex : ℕ → ThreadStore → Option ℕ
get_waiting_mutex t s = mutex_of (last_info (s.tcb t).mutexes)

unfoldable pub is_waiting_on_mutex : ℕ → ThreadStore → Bool
is_waiting_on_mutex t s = waiting_of (last_info (s.tcb t).mutexes)

unfoldable pub set_last_waiting : Bool → List MutexInfo → List MutexInfo
set_last_waiting w [] = []
set_last_waiting w (i ∷ []) = record i { waiting = w } ∷ []
set_last_waiting w (i ∷ j ∷ infos) = i ∷ set_last_waiting w (j ∷ infos)

unfoldable pub set_waiting_on_mutex : ℕ → Bool → ThreadStore → ThreadStore
set_waiting_on_mutex t w s = write_mutexes t (set_last_waiting w (s.tcb t).mutexes) s

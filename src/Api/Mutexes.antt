-- ===== src/Api/Mutexes.antt =====
-- VirtualMachine.cpp: VMMutexCreate, VMMutexDelete, VMMutexQuery, VMMutexAcquire, VMMutexRelease.
use project.Prelude.{ℕ, Option, none, some, Bool, if◌then◌else◌}
use project.Machine.Data.{SigSet}
use project.Vm.Data.{
  failure, success, invalid_parameter, invalid_id, invalid_state, thread_id_invalid,
}
use project.Vm.Run.{done, M, bind}
use project.Vm.Locks.{lock, release, delete_from_vm}
use project.Vm.Threads.{find_mutex_by_id}
use project.Vm.Create.{new_mutex, insert_mutex}
use project.Api.Call.{Reply, suspend, answer, is_some, is_thread}

-- `garbage` is what the new object holds in its field `deleted`.
unfoldable pub vm_mutex_create : Bool → Bool → M Reply
vm_mutex_create garbage has_ref s =
    let (s1, saved) = suspend s in
    let (s2, m) = new_mutex garbage s1 in
    let s3 = insert_mutex m s2 in
    if has_ref
    then answer saved success (some (s3.mutex m).id) s3
    else answer saved invalid_parameter none s1

abbrev pub delete_found : SigSet → Option ℕ → M Reply
delete_found saved none s = answer saved invalid_id none s
delete_found saved (some m) s =
    if (s.mutex m).deleted
    then answer saved invalid_id none s
    else if is_some (s.mutex m).owner
    then answer saved invalid_state none s
    else answer saved success none (delete_from_vm m s)

unfoldable pub vm_mutex_delete : ℕ → M Reply
vm_mutex_delete id s = let (s1, saved) = suspend s in delete_found saved (find_mutex_by_id id s1) s1

abbrev pub owner_reply : SigSet → Option ℕ → M Reply
owner_reply saved none s = answer saved thread_id_invalid none s
owner_reply saved (some o) s = answer saved success (some (s.tcb o).thread_id) s

abbrev pub query_found : SigSet → Option ℕ → M Reply
query_found saved none s = answer saved invalid_id none s
query_found saved (some m) s =
    if (s.mutex m).deleted
    then answer saved invalid_id none s
    else owner_reply saved (s.mutex m).owner s

unfoldable pub vm_mutex_query : ℕ → Bool → M Reply
vm_mutex_query id has_ref s =
    let (s1, saved) = suspend s in
    if has_ref
    then query_found saved (find_mutex_by_id id s1) s1
    else answer saved invalid_parameter none s1

-- What follows the call of `lock`.
unfoldable pub check_owner : SigSet → ℕ → ℕ → M Reply
check_owner saved m current s =
    if is_thread current (s.mutex m).owner
    then answer saved success none s
    else answer saved failure none s

abbrev pub acquire_found : SigSet → ℕ → Option ℕ → M Reply
acquire_found saved timeout none s = answer saved invalid_id none s
acquire_found saved timeout (some m) s =
    let current = s.current_thread in
    if (s.mutex m).deleted
    then answer saved invalid_id none s
    else bind (lock m current timeout s) (λ _. check_owner saved m current)

unfoldable pub vm_mutex_acquire : ℕ → ℕ → M Reply
vm_mutex_acquire id timeout s =
    let (s1, saved) = suspend s in acquire_found saved timeout (find_mutex_by_id id s1) s1

-- Without the mutex the call returns at once: the signals stay suspended.
abbrev pub release_found : SigSet → Option ℕ → M Reply
release_found saved none s = answer saved invalid_id none s
release_found saved (some m) s =
    if is_thread s.current_thread (s.mutex m).owner
    then bind (release m s) (λ _. answer saved success none)
    else done (record { status = invalid_state; out = none }) s

unfoldable pub vm_mutex_release : ℕ → M Reply
vm_mutex_release id s =
    let (s1, saved) = suspend s in release_found saved (find_mutex_by_id id s1) s1

-- ===== src/System/Sound.antt =====
-- VirtualMachine.cpp and UtilityFunctions.cpp: the states that the system reaches.
use project.Prelude.{ℕ, ◌≡◌, refl, sym, subst, ◌∙◌, Bool, false, some, update, update-cases}
use project.Machine.Data.{Machine}
use project.Machine.Signals.{enable_signals}
use project.Vm.Data.{is_idle, Tcb, Mutex, ThreadStore}
use project.Vm.Run.{Run, done, switched, undefined, unfinished, aborted}
use project.Vm.Threads.{terminate, terminate_current_thread}
use project.Vm.Create.{new_thread_store}
use project.Vm.Entry.{safe_entry_begin, safe_entry_end}
use project.Api.Call.{Reply}
use project.Api.Start.{boot}
use project.Safety.Inv.{Inv, Ensures}
use project.Safety.Safe.{Grows, Grows-refl, Grows-trans, Safe, Any, Safe-bind}
use project.Safety.Steps.{machine-Next}
use project.Safety.Threads.{terminate-Safe}
use project.Safety.Timer.{timer_interrupt-Safe, machine_file_io_callback-Next}
use project.Safety.Boot.{boot-Inv}
use project.Safety.Calls.Mutexes.{
  vm_mutex_create-Safe, vm_mutex_delete-Safe, vm_mutex_query-Safe, vm_mutex_acquire-Safe,
  vm_mutex_release-Safe,
}
use project.Safety.Calls.Threads.{
  vm_thread_create-Safe, vm_thread_delete-Safe, vm_thread_activate-Safe, vm_thread_terminate-Safe,
  vm_thread_id-Safe, vm_thread_state-Safe, vm_thread_sleep-Safe,
}
use project.Safety.Calls.Files.{
  vm_file_open-Safe, vm_file_close-Safe, vm_file_read-Safe, vm_file_write-Safe, vm_file_seek-Safe,
}
use project.System.Defs.{
  Call, mutex_create, mutex_delete, mutex_query, mutex_acquire, mutex_release, thread_create,
  thread_delete, thread_activate, thread_terminate, thread_id, thread_state, thread_sleep,
  file_open, file_close, file_read, file_write, file_seek, entry_returns, drop_reply, exec, Allowed,
  Context, fresh, saved, System, user, kernel, resume, Step, call, timer, reply, return, switch,
  Reach, here, next,
}

-- No undefined behaviour, and the invariant wherever a thread runs module code or is switched out.
abbrev pub IsSound : System → Type 0
IsSound (user s cs) = Inv s
IsSound (kernel (done a s) cs) = Inv s
IsSound (kernel (switched t s k) cs) = Inv s
IsSound (kernel undefined cs) = ⊥
IsSound (kernel unfinished cs) = Unit
IsSound (kernel aborted cs) = Unit

-- A thread that is switched in again goes on safely.
abbrev pub GoodContext : ℕ → Context → ThreadStore → Type 0
GoodContext t fresh s = Unit
GoodContext t (saved k) s =
    (base : ThreadStore) × Grows base s
    × ((s' : ThreadStore) → Inv s' → Grows base s' → s'.current_thread ≡ t → Safe t Any s' (k s'))

abbrev pub GoodContexts : (ℕ → Context) → ThreadStore → Type 0
GoodContexts cs s = (t : ℕ) → GoodContext t (cs t) s

abbrev pub IsGood : System → Type 0
IsGood (user s cs) = Inv s × GoodContexts cs s
IsGood (kernel r cs) =
    (base : ThreadStore) × Safe base.current_thread Any base r × GoodContexts cs base

pub GoodContext-mono :
    (t : ℕ) (c : Context) (s s' : ThreadStore) → Grows s s' → GoodContext t c s → GoodContext t c s'
GoodContext-mono t fresh s s' g h = tt
GoodContext-mono t (saved k) s s' g (base, b, h) = (base, Grows-trans b g, h)

pub IsGood-IsSound : (a : System) → IsGood a → IsSound a
IsGood-IsSound (user s cs) g = g.0
IsGood-IsSound (kernel (done a s) cs) (base, h, g) = h.0
IsGood-IsSound (kernel (switched t s k) cs) (base, h, g) = h.0
IsGood-IsSound (kernel undefined cs) (base, h, g) = h
IsGood-IsSound (kernel unfinished cs) g = tt
IsGood-IsSound (kernel aborted cs) g = tt

drop_reply-Safe :
    (Q : Reply → ThreadStore → Type 0) (s : ThreadStore) (r : Run Reply)
    → Safe s.current_thread Q s r
    → Safe s.current_thread Any s (drop_reply r)
drop_reply-Safe Q s r h =
    Safe-bind s.current_thread Q Any s r (λ _ u. done tt u) h
      λ a u v g c q. (v, Grows-refl u, c, tt)

safe_entry_end-Safe :
    (fuel : ℕ) (s : ThreadStore) → Inv s → Safe s.current_thread Any s (safe_entry_end fuel s)
unfolding safe_entry_end terminate_current_thread
safe_entry_end-Safe fuel s v =
    Safe-bind s.current_thread Any Any s (terminate fuel s.current_thread s) _
      (terminate-Safe fuel s.current_thread s v v.lists.current) λ a u vu g c q. tt

-- From a store with the invariant, each call of the virtual machine by a thread that is not idle,
-- and the return from its entry function, reaches no null pointer and no index out of range. The
-- invariant holds at every switch and at the end, which is in the thread that called, provided
-- that the threads that run in between keep it and change no identifier, priority or entry
-- function. The condition on the arguments is `Allowed`: a priority from 1 to 3, and names and
-- data that fit into a message.
pub exec-Safe :
    (x : Call) (s : ThreadStore)
    → Inv s
    → is_idle (s.tcb s.current_thread).entry_function ≡ false
    → Allowed x
    → Safe s.current_thread Any s (exec x s)
unfolding exec
exec-Safe (mutex_create g r) s v i a = drop_reply-Safe _ s _ (vm_mutex_create-Safe g r s v)
exec-Safe (mutex_delete id) s v i a = drop_reply-Safe _ s _ (vm_mutex_delete-Safe id s v)
exec-Safe (mutex_query id r) s v i a = drop_reply-Safe _ s _ (vm_mutex_query-Safe id r s v)
exec-Safe (mutex_acquire id t) s v i a = drop_reply-Safe _ s _ (vm_mutex_acquire-Safe id t s v i)
exec-Safe (mutex_release id) s v i a = drop_reply-Safe _ s _ (vm_mutex_release-Safe id s v)
exec-Safe (thread_create e p m prio r) s v i (lo, hi) =
    drop_reply-Safe _ s _ (vm_thread_create-Safe s v e p m prio r lo hi)
exec-Safe (thread_delete id) s v i a = drop_reply-Safe _ s _ (vm_thread_delete-Safe s v id)
exec-Safe (thread_activate id) s v i a = drop_reply-Safe _ s _ (vm_thread_activate-Safe s v id)
exec-Safe (thread_terminate f id) s v i a =
    drop_reply-Safe _ s _ (vm_thread_terminate-Safe s v f id)
exec-Safe (thread_id r) s v i a = drop_reply-Safe _ s _ (vm_thread_id-Safe s v r)
exec-Safe (thread_state id r) s v i a = drop_reply-Safe _ s _ (vm_thread_state-Safe s v id r)
exec-Safe (thread_sleep t) s v i a = drop_reply-Safe _ s _ (vm_thread_sleep-Safe s v t)
exec-Safe (file_open n f m r) s v i a = drop_reply-Safe _ s _ (vm_file_open-Safe s v n f m r a)
exec-Safe (file_close fd) s v i a = drop_reply-Safe _ s _ (vm_file_close-Safe s v fd)
exec-Safe (file_read fd p n) s v i a = drop_reply-Safe _ s _ (vm_file_read-Safe s v fd p n)
exec-Safe (file_write fd p n) s v i a = drop_reply-Safe _ s _ (vm_file_write-Safe s v fd p n a)
exec-Safe (file_seek fd o w r) s v i a = drop_reply-Safe _ s _ (vm_file_seek-Safe s v fd o w r)
exec-Safe (entry_returns f) s v i a = safe_entry_end-Safe f s v

resume-IsGood :
    (c : Context) (s : ThreadStore) (cs : ℕ → Context)
    → Inv s
    → GoodContext s.current_thread c s
    → GoodContexts cs s
    → IsGood (resume c s cs)
unfolding safe_entry_begin
resume-IsGood fresh s cs v h g =
    let n = machine-Next s v (enable_signals s.machine) in
    (n.inv, λ t. GoodContext-mono t (cs t) s _ n.grows (g t))
resume-IsGood (saved k) s cs v (base, b, h) g = (s, h s v b refl, g)

pub Step-IsGood : {a b : System} → Step a b → IsGood a → IsGood b
Step-IsGood (call x s cs i a) (v, g) = (s, exec-Safe x s v i a, g)
Step-IsGood (timer s cs) (v, g) = (s, timer_interrupt-Safe s v, g)
Step-IsGood (reply t r s cs) (v, g) =
    let n = machine_file_io_callback-Next t r s v in
    (n.inv, λ u. GoodContext-mono u (cs u) s _ n.grows (g u))
Step-IsGood (return s cs) (base, (v, b, c, q), g) =
    (v, λ u. GoodContext-mono u (cs u) base s b (g u))
Step-IsGood (switch t s k cs) (base, (v, b, e, h), g) =
    resume-IsGood (update cs t (saved k) s.current_thread) s (update cs t (saved k)) v
      (good s.current_thread) good
  where
    good : GoodContexts (update cs t (saved k)) s
    good u =
        update-cases (λ c. GoodContext u c s) cs t u (saved k)
          (λ p. (
            s,
            Grows-refl s,
            λ s' v' g' c'.
                let q = sym p ∙ e in
                subst (λ d. Safe d Any s' (k s')) (sym q) (h s' v' g' (c' ∙ q)),
          ))
          (GoodContext-mono u (cs u) base s b (g u))

Reach-IsGood : {a b : System} → IsGood a → Reach a b → IsGood b
Reach-IsGood g here = g
Reach-IsGood g (next r s) = Step-IsGood s (Reach-IsGood g r)

-- From any state in which no thread has been switched out yet.
pub Reach-IsSound :
    (s : ThreadStore) {a : System} → Inv s → Reach (user s (λ _. fresh)) a → IsSound a
Reach-IsSound s {a} v r = IsGood-IsSound a (Reach-IsGood (v, λ t. tt) r)

module _ (tcb : ℕ → Tcb) (mutex : ℕ → Mutex) (current : ℕ) (loaded : Bool) (machine : Machine) where
  -- From the store that VMStart hands to the module, every system state that allowed calls, interrupts,
  -- replies and context switches lead to is sound: no call has reached a null pointer or an index
  -- out of range, and the invariant holds wherever a thread runs module code or is switched out.
  pub run-IsSound :
      (param tickms : ℕ) {s : ThreadStore} {a : System}
      → boot param tickms (new_thread_store tcb mutex current loaded machine) ≡ some s
      → Reach (user s (λ _. fresh)) a
      → IsSound a
  run-IsSound param tickms {s} e r =
      Reach-IsSound s
        (subst (Ensures Inv) e (boot-Inv tcb mutex current loaded machine param tickms)) r

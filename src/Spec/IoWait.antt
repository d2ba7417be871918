-- ===== src/Spec/IoWait.antt =====
-- UtilityFunctions.cpp and VirtualMachine.cpp: a call that waits for the reply to a request.
use project.Prelude.{
  ℕ, ◌<◌, ◌≡◌, refl, ap, Bool, true, false, ◌&&◌, Option, none, some, arith, ==_refl,
}
use project.Machine.Data.{SigSet, Machine, machine_file_io_callback}
use project.Machine.Codec.{is_negative}
use project.Vm.Data.{ThreadStore, waiting, success, is_running, priority_high}
use project.Vm.Run.{Run, done, switched, undefined, unfinished, aborted, M, bind}
use project.Vm.Schedule.{
  schedule, switch_to_picked, pick, context_switch, switch_out, switch_to_new_thread,
  are_all_lists_empty,
}
use project.Vm.Tcb.{set_state, set_is_waiting_on_io}
use project.Vm.Wait.{wait_current_thread_on_io}
use project.Api.Call.{answer}
use project.Api.Files.{Request, wait_for_request, file_result, perform}
use project.Safety.Inv.{Inv}
use project.Safety.Safe.{Safe, Any}
use project.Safety.Wait.{wait_current_thread_on_io-Safe}
use project.Safety.Steps.{machine-Next}
use project.Spec.Run.{Perhaps, Perhaps-mono}
use project.Spec.Kept.{Kept, schedule-Kept}

-- The operation hands the processor over in such a store, and does the rest once it has it back.
abbrev pub Waits : {A : Type 0} → ℕ → (ThreadStore → Type 0) → M A → Run A → Type 0
Waits c P f (done a s) = ⊥
Waits c P f (switched t u k) = (t ≡ c) × P u × ((w : ThreadStore) → k w ≡ f w)
Waits c P f undefined = ⊥
Waits c P f unfinished = ⊥
Waits c P f aborted = ⊥

pub Waits-bind :
    {A B : Type 0} (c : ℕ) (P : ThreadStore → Type 0) (a : A) (r : Run A) (f : A → M B)
    → Waits c P (done a) r
    → Waits c P (f a) (bind r f)
Waits-bind c P a (switched t u k) f (e, p, same) = (e, p, λ w. ap (λ r. bind r f) (same w))
Waits-bind c P a (done x s) f h = absurd h
Waits-bind c P a undefined f h = absurd h
Waits-bind c P a unfinished f h = absurd h
Waits-bind c P a aborted f h = absurd h

-- What is left to do once the thread is back is nothing.
abbrev pub Resumes : Run (Unit {0}) → Type 0
Resumes (switched t u k) = (w : ThreadStore) → k w ≡ done tt w
Resumes (done a s) = ⊥
Resumes undefined = Unit
Resumes unfinished = Unit
Resumes aborted = Unit

context_switch-Resumes : (c t : ℕ) (o : Option ThreadStore) → Resumes (context_switch c t o)
context_switch-Resumes c t none = tt
context_switch-Resumes c t (some u) = λ w. refl

schedule-Resumes :
    (p : ℕ) (s : ThreadStore)
    → (are_all_lists_empty s && is_running (s.tcb s.current_thread).state) ≡ false
    → Resumes (schedule p s)
unfolding schedule switch_to_new_thread
schedule-Resumes p s e = rw e (go (pick p s))
  where
    go : (o : Option (ℕ × ThreadStore)) → Resumes (switch_to_picked o)
    go none = tt
    go (some (t, u)) = context_switch-Resumes u.current_thread t (switch_out u.current_thread _)

Waits-of :
    (c : ℕ) (b : ThreadStore) (P : ThreadStore → Type 0) (r : Run (Unit {0}))
    → Safe c Any b r
    → Perhaps P r
    → Resumes r
    → Waits c P (done tt) r
Waits-of c b P (switched t u k) (v, g, e, q) p same = (e, p, same)
Waits-of c b P (done a s) h p same = same
Waits-of c b P undefined h p same = absurd h
Waits-of c b P unfinished h p same = absurd p
Waits-of c b P aborted h p same = absurd p

and_false : (b : Bool) → (b && false) ≡ false
and_false true = refl
and_false false = refl

-- The thread waits for a reply, with this machine.
pub io_waits :
    (s : ThreadStore)
    → Inv s
    → Waits s.current_thread (λ u. u.machine ≡ s.machine) (done tt) (wait_current_thread_on_io s)
unfolding wait_current_thread_on_io set_state set_is_waiting_on_io are_all_lists_empty
io_waits s v =
    Waits-of s.current_thread s (λ u. u.machine ≡ s.machine) (wait_current_thread_on_io s)
      (wait_current_thread_on_io-Safe s v)
      (Perhaps-mono (Kept s1) (λ u. u.machine ≡ s.machine) (schedule priority_high s1)
        (λ u h. ap (λ k. k.1) h) (schedule-Kept priority_high s1))
      (schedule-Resumes priority_high s1
        (rw (==_refl s.current_thread) (and_false (are_all_lists_empty s1))))
  where
    s1 : ThreadStore
    s1 = set_state s.current_thread waiting (set_is_waiting_on_io s.current_thread true s)

pub perform-Waits :
    (saved : SigSet) (request : Request) (writes : Bool) (s : ThreadStore) (m : Machine)
    → Inv s
    → request (some machine_file_io_callback) (some s.current_thread) s.machine ≡ some m
    → Waits s.current_thread
        (λ u. u.machine ≡ m)
        (file_result saved s.current_thread writes)
        (perform saved request writes s)
unfolding perform wait_for_request
perform-Waits saved request writes s m v e = rw e (
    Waits-bind s.current_thread (λ u. u.machine ≡ m) tt
      (wait_current_thread_on_io (record s { machine = m }))
      (λ _. file_result saved s.current_thread writes)
      (io_waits (record s { machine = m }) (machine-Next s v m).inv))

not_negative : (n : ℕ) → n < 2147483648 → is_negative n ≡ false
not_negative n h = ground arith

pub file_result-success :
    (saved : SigSet) (c n : ℕ) (w : ThreadStore)
    → (w.tcb c).file_io_result ≡ n
    → n < 2147483648
    → file_result saved c true w ≡ answer saved success (some n) w
unfolding file_result
file_result-success saved c n w e h = rw (e, not_negative n h) refl

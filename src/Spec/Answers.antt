-- ===== src/Spec/Answers.antt =====
-- VirtualMachine.cpp: what the answers of the calls have in common.
use project.Prelude.{
  ℕ, ◌≡◌, refl, inl, inr, Bool, true, false, not, Option, none, List, [], ◌∷◌, if◌then◌else◌,
  Bool-cases,
}
use project.Machine.Data.{SigSet}
use project.Machine.Codec.{is_negative}
use project.Machine.Signals.{suspend_signals, resume_signals}
use project.Vm.Data.{ThreadStore, success, failure}
use project.Vm.Run.{Run, done, bind}
use project.Vm.Threads.{find_thread_by_id, find_in, find_in_dead}
use project.Api.Call.{Reply, suspend, answer, is_thread}
use project.Api.Mutexes.{check_owner}
use project.Api.Files.{file_result, perform, Request}
use project.Spec.Refused.{demand, Ends, IsGranted, Result, Ends-bind}

unfoldable pub blocked : ThreadStore → ThreadStore
blocked s = (suspend s).0

find_in-blocked :
    (id : ℕ) (ts : List ℕ) (s : ThreadStore) → find_in id ts (blocked s) ≡ find_in id ts s
unfolding find_in blocked suspend suspend_signals
find_in-blocked id [] s = refl
find_in-blocked id (t ∷ ts) s = rw (find_in-blocked id ts s)

find_in_dead-blocked :
    (id : ℕ) (ts : List ℕ) (s : ThreadStore) → find_in_dead id ts (blocked s) ≡ find_in_dead id ts s
unfolding find_in_dead blocked suspend suspend_signals
find_in_dead-blocked id [] s = refl
find_in_dead-blocked id (t ∷ ts) s = rw (find_in_dead-blocked id ts s)

pub find_thread_by_id-blocked :
    (id : ℕ) (s : ThreadStore) → find_thread_by_id id (blocked s) ≡ find_thread_by_id id s
unfolding find_thread_by_id blocked suspend suspend_signals
find_thread_by_id-blocked id s = rw (
  find_in-blocked id (s.ready_lists 1) s,
  find_in-blocked id (s.ready_lists 2) s,
  find_in-blocked id (s.ready_lists 3) s,
  find_in-blocked id s.wait_list s,
  find_in_dead-blocked id s.dead_list s,
)

pub granted :
    (saved : SigSet) (out : Option ℕ) (u : ThreadStore)
    → Ends IsGranted (answer saved success out u)
unfolding answer
granted saved out u = inl refl

failed :
    (saved : SigSet) (out : Option ℕ) (u : ThreadStore)
    → Ends IsGranted (answer saved failure out u)
unfolding answer
failed saved out u = inr refl

-- The signals are blocked and opened again.
pub refused :
    (s : ThreadStore) (status : ℕ)
    → answer s.machine.mask status none (blocked s)
      ≡ done (record { status = status; out = none }) s
unfolding answer resume_signals blocked suspend suspend_signals
refused s status = refl

abbrev pub Answers : Option ℕ → ThreadStore → Run Reply → Type 0
Answers o s r = Result o r (λ _. s)

pub then_granted :
    {A : Type 0} (saved : SigSet) (r : Run A)
    → Ends IsGranted (bind r (λ _. answer saved success none))
then_granted saved r = Ends-bind IsGranted r _ (λ a u. granted saved none u)

-- A condition, and what follows if it holds.
pub demanded :
    (c : Bool) (status : ℕ) (s : ThreadStore) (next : Option ℕ) (r : Run Reply)
    → Answers next s r
    → Answers
        (demand c status next)
        s
        (if c then r else answer s.machine.mask status none (blocked s))
demanded true status s next r h = h
demanded false status s next r h = refused s status

-- The same where the condition is tested the other way round.
pub demanded_not :
    (c : Bool) (status : ℕ) (s : ThreadStore) (next : Option ℕ) (r : Run Reply)
    → Answers next s r
    → Answers
        (demand (not c) status next)
        s
        (if c then answer s.machine.mask status none (blocked s) else r)
demanded_not true status s next r h = refused s status
demanded_not false status s next r h = h

file_result-granted :
    (saved : SigSet) (c : ℕ) (writes : Bool) (u : ThreadStore)
    → Ends IsGranted (file_result saved c writes u)
unfolding file_result
file_result-granted saved c writes u = elim (Bool-cases (is_negative (u.tcb c).file_io_result)) [
  | inl e ↦ rw e (failed saved _ u)
  | inr e ↦ rw e (granted saved _ u)
]

pub performed :
    (saved : SigSet) (request : Request) (writes : Bool) (u : ThreadStore)
    → Ends IsGranted (perform saved request writes u)
unfolding perform
performed saved request writes u =
    Ends-bind IsGranted _ _ (λ a w. file_result-granted saved u.current_thread writes w)

pub check_owner-granted :
    (saved : SigSet) (m c : ℕ) (u : ThreadStore) → Ends IsGranted (check_owner saved m c u)
unfolding check_owner
check_owner-granted saved m c u = elim (Bool-cases (is_thread c (u.mutex m).owner)) [
  | inl e ↦ rw e (granted saved none u)
  | inr e ↦ rw e (failed saved none u)
]

-- ===== src/Program/Followed.antt =====
-- VirtualMachine.cpp, UtilityFunctions.cpp and Machine.cpp together: the requests of the threads.
use project.Prelude.{ℕ, ◌≡◌, refl, Option, none, some, update, update-cases}
use project.Machine.Signals.{enable_signals}
use project.Vm.Data.{ThreadStore}
use project.Vm.Run.{Run, done, switched, undefined, unfinished, aborted}
use project.Vm.Timer.{timer_interrupt}
use project.Vm.Entry.{safe_entry_begin}
use project.System.Defs.{System, user, kernel, Context, fresh, saved, resume, exec}
use project.System.Defs as Systems
use project.Quiet.Talk.{Talk, silent, Talks, Still-of, signals-Still}
use project.Quiet.Exec.{exec-Talks, timer_interrupt-Talks}
use project.Program.Defs.{store_of, with_store, IsOurs}

-- What is left of a computation makes requests of the virtual machine only, and so does a thread that
-- was switched out.
abbrev pub Rest : Run (Unit {0}) → Type 0
Rest (switched t s k) = (u : ThreadStore) → Talks u (k u)
Rest _ = Unit

abbrev pub Goes : Context → Type 0
Goes fresh = Unit
Goes (saved k) = (u : ThreadStore) → Talks u (k u)

abbrev pub IsFollowed : System → Type 0
IsFollowed (user s cs) = (t : ℕ) → Goes (cs t)
IsFollowed (kernel r cs) = Rest r × ((t : ℕ) → Goes (cs t))

abbrev pub Leads : ThreadStore → Option ThreadStore → Type 0
Leads s none = Unit
Leads s (some u) = Talk s u

Talks-Leads :
    (s : ThreadStore) (r : Run (Unit {0})) (cs : ℕ → Context)
    → Talks s r
    → ((t : ℕ) → Goes (cs t))
    → Leads s (store_of (kernel r cs)) × IsFollowed (kernel r cs)
Talks-Leads s (done a u) cs h g = (h, (tt, g))
Talks-Leads s (switched t u k) cs (h, r) g = (h, (r, g))
Talks-Leads s undefined cs h g = (tt, (tt, g))
Talks-Leads s unfinished cs h g = (tt, (tt, g))
Talks-Leads s aborted cs h g = (tt, (tt, g))

resume-Leads :
    (c : Context) (s : ThreadStore) (cs : ℕ → Context)
    → Goes c
    → ((t : ℕ) → Goes (cs t))
    → Leads s (store_of (resume c s cs)) × IsFollowed (resume c s cs)
unfolding safe_entry_begin enable_signals
resume-Leads fresh s cs h g = (silent (signals-Still s _ refl refl refl refl), g)
resume-Leads (saved k) s cs h g = Talks-Leads s (k s) cs (h s) g

-- A step of the threads, from a store to the next: at most one request is made.
pub record Led (a b : System) : Type 0 where
  pub source : ThreadStore
  pub stands : store_of a ≡ some source
  pub leads : Leads source (store_of b)
  pub followed : IsFollowed b

made-Led :
    {a b : System} (s : ThreadStore)
    → store_of a ≡ some s
    → Leads s (store_of b) × IsFollowed b
    → Led a b
made-Led s e (h, g) = record { source = s; stands = e; leads = h; followed = g }

pub Step-Led : {a b : System} (st : Systems.Step a b) → IsOurs st → IsFollowed a → Led a b
Step-Led (Systems.call x s cs i a) o g =
    made-Led s refl (Talks-Leads s (exec x s) cs (exec-Talks x s o) g)
Step-Led (Systems.timer s cs) o g =
    made-Led s refl (Talks-Leads s (timer_interrupt s) cs (timer_interrupt-Talks s) g)
Step-Led (Systems.reply t result s cs) o g = absurd o
Step-Led (Systems.return s cs) o (r, g) = made-Led s refl (silent (Still-of s s refl), g)
Step-Led (Systems.switch t s k cs) o (r, g) =
    made-Led s refl (resume-Leads (cs' s.current_thread) s cs' (good s.current_thread) good)
  where
    cs' : ℕ → Context
    cs' = update cs t (saved k)

    good : (u : ℕ) → Goes (cs' u)
    good u = update-cases Goes cs t u (saved k) (λ p. r) (g u)

pub store_of-with_store :
    (a : System) (s u : ThreadStore) → store_of a ≡ some s → store_of (with_store u a) ≡ some u
store_of-with_store (user v cs) s u e = refl
store_of-with_store (kernel (done a v) cs) s u e = refl
store_of-with_store (kernel (switched t v k) cs) s u e = refl
store_of-with_store (kernel undefined cs) s u e = absurd (cc)
store_of-with_store (kernel unfinished cs) s u e = absurd (cc)
store_of-with_store (kernel aborted cs) s u e = absurd (cc)

pub with_store-IsFollowed :
    (a : System) (u : ThreadStore) → IsFollowed a → IsFollowed (with_store u a)
with_store-IsFollowed (user v cs) u g = g
with_store-IsFollowed (kernel (done a v) cs) u g = g
with_store-IsFollowed (kernel (switched t v k) cs) u g = g
with_store-IsFollowed (kernel undefined cs) u g = g
with_store-IsFollowed (kernel unfinished cs) u g = g
with_store-IsFollowed (kernel aborted cs) u g = g

-- ===== src/Program/Traced.antt =====
-- VirtualMachine.cpp, UtilityFunctions.cpp and Machine.cpp together: the states of the program as
-- states of the two processes.
use project.Prelude.{
  ℕ, ◌+◌, ◌<◌, ◌≡◌, sym, ap, subst, ◌∙◌, true, false, Option, some, [], ◌∷◌, arith, length,
  length-append,
}
use project.Machine.Data.{Machine}
use project.Machine.Server.{Os}
use project.Vm.Data.{ThreadStore}
use project.Vm.Reply.{reply_signal_handler}
use project.System.Defs.{System, user, kernel, Context, fresh, saved, resume, exec}
use project.System.Defs as Systems
use project.Link.Defs.{IsQuiet, Link, Asks, IsUnused, start}
use project.Link.Defs as Links
use project.Link.Requests.{IsAsked, Asks-IsAsked}
use project.Link.Sound.{run-Inv}
use project.Link.Handler.{handler-Reach}
use project.Quiet.Talk.{Talk, silent, asks, Still}
use project.Program.Defs.{
  Program, store_of, has_sent, moved, as_link, IsOurs, HasRoom, Step, runs, beside, handles,
  beside_moved, Reach, here, next, begin,
}
use project.Program.Followed.{
  IsFollowed, Leads, Led, Step-Led, store_of-with_store, with_store-IsFollowed,
}

has_sent-Still : (s u : ThreadStore) → Still s u → has_sent (some s) (some u) ≡ false
has_sent-Still s u k = ground (arith, ap length k.quiet.requests)

module _ {World : Type 0} (os : Os World) (a0 l : Link World) (base : Links.Reach os a0 l) where
  -- The steps of the two processes for one step of the threads.
  asked-Reach :
      (v u : ThreadStore) (m : Machine) {r : Option Machine}
      → l.owes_signal ≡ false
      → l.store.machine.initialized ≡ true
      → l.store.machine.request_id < 4294967295
      → Still l.store v
      → Asks v.current_thread v.machine r
      → r ≡ some m
      → IsQuiet (record v { machine = m }) u
      → Links.Reach os a0 (record l { store = u; owes_signal = has_sent (some l.store) (some u) })
  asked-Reach v u m o i small k a e q =
      subst (λ b. Links.Reach os a0 (record l { store = u; owes_signal = b })) (sym sent)
        (Links.next
          (Links.next (Links.next base (Links.work v k.quiet))
            (Links.ask v.current_thread m o room a e))
          (Links.work u q))
    where
      room : v.machine.request_id < 4294967295
      room = subst (λ n. n < 4294967295) (sym k.quiet.request_id) small

      asked : IsAsked os v.machine m
      asked = Asks-IsAsked os v.current_thread v.machine (k.quiet.initialized ∙ i) room m a e

      longer : length u.machine.requests ≡ length l.store.machine.requests + 1
      longer =
          ap length (q.requests ∙ asked.queued)
          ∙ length-append v.machine.requests (asked.message ∷ [])
          ∙ ap (λ x. length x + 1) k.quiet.requests

      sent : has_sent (some l.store) (some u) ≡ true
      sent = ground (arith, longer)

  Talk-Reach :
      (u : ThreadStore)
      → l.owes_signal ≡ false
      → l.store.machine.initialized ≡ true
      → l.store.machine.request_id < 4294967295
      → Talk l.store u
      → Links.Reach os a0 (record l { store = u; owes_signal = has_sent (some l.store) (some u) })
  Talk-Reach u o i small (silent k) =
      subst (λ b. Links.Reach os a0 (record l { store = u; owes_signal = b }))
        (o ∙ sym (has_sent-Still l.store u k)) (Links.next base (Links.work u k.quiet))
  Talk-Reach u o i small (asks v m k a e q w) = asked-Reach v u m o i small k a e q

same : {A : Type 0} {x y : A} → some x ≡ some y → x ≡ y
same e = cc

module _ {World : Type 0} (os : Os World) where
  -- What the states of the program have in common, from a start: the threads make requests as the
  -- virtual machine does, and while they stand the two processes are in a state that they reach.
  pub record IsTraced (s0 : ThreadStore) (w : World) (p : Program World) : Type 0 where
    pub followed : IsFollowed p.system
    pub reached :
        (s : ThreadStore) → store_of p.system ≡ some s → Links.Reach os (start s0 w) (as_link s p)

  module _ (s0 : ThreadStore) (w : World) (u : IsUnused s0.machine) where
    runs-IsTraced :
        (p : Program World) {b : System} (st : Systems.Step p.system b)
        → IsOurs st
        → p.owes_signal ≡ false
        → HasRoom (store_of p.system)
        → IsTraced s0 w p
        → IsTraced s0 w (moved p b)
    runs-IsTraced p {b} st o e room t = record { followed = l.followed; reached = reached }
      where
        l : Led p.system b
        l = Step-Led st o t.followed

        s : ThreadStore
        s = l.source

        r : Links.Reach os (start s0 w) (as_link s p)
        r = t.reached s l.stands

        small : s.machine.request_id < 4294967295
        small = subst HasRoom l.stands room

        reached :
            (v : ThreadStore)
            → store_of b ≡ some v
            → Links.Reach os (start s0 w) (as_link v (moved p b))
        reached v k =
            subst (λ x. Links.Reach os (start s0 w) (record (as_link v p) { owes_signal = x }))
              (sym (ap (λ x. has_sent x (store_of b)) l.stands ∙ ap (has_sent (some s)) k))
              (Talk-Reach os (start s0 w) (as_link s p) r v e (run-Inv os s0 w u r).ready small
                (subst (Leads s) k l.leads))

    beside-IsTraced :
        (p : Program World) (s : ThreadStore) {l : Link World}
        → store_of p.system ≡ some s
        → Links.Step os (as_link s p) l
        → IsTraced s0 w p
        → IsTraced s0 w (beside_moved p l)
    beside-IsTraced p s {l} e st t = record {
      followed = with_store-IsFollowed p.system l.store t.followed;
      reached = λ v k.
          subst (λ x. Links.Reach os (start s0 w) (record l { store = x }))
            (same (sym (store_of-with_store p.system s l.store e) ∙ k))
            (Links.next (t.reached s e) st);
    }

    handles-IsTraced :
        (p : Program World) (s s' : ThreadStore) (cs : ℕ → Context)
        → p.system ≡ user s cs
        → reply_signal_handler p.replies s ≡ some s'
        → IsTraced s0 w p
        → IsTraced s0 w (record p { system = user s' cs; replies = []; reply_signal = false })
    handles-IsTraced p s s' cs e h t = record {
      followed = subst IsFollowed e t.followed;
      reached = λ v k.
          subst (λ x. Links.Reach os (start s0 w) (record (as_link x p) { replies = [] })) (same k)
            (handler-Reach os s0 w u (λ x. Unit {0}) (λ q x y g i. tt) p.replies (as_link s p) s' h
              (t.reached s (ap store_of e)) tt).0;
    }

    Step-IsTraced : {p p' : Program World} → Step os p p' → IsTraced s0 w p → IsTraced s0 w p'
    Step-IsTraced {p} (runs st o e room) t = runs-IsTraced p st o e room t
    Step-IsTraced {p} (beside s e st b) t = beside-IsTraced p s e st t
    Step-IsTraced {p} (handles s s' cs e o d m h) t = handles-IsTraced p s s' cs e h t

    pub Reach-IsTraced : {p : Program World} → Reach os (begin s0 w) p → IsTraced s0 w p
    unfolding begin start
    Reach-IsTraced here = record {
      followed = λ t. tt;
      reached = λ v k.
          subst (λ x. Links.Reach os (start s0 w) (record (start s0 w) { store = x })) (same k)
            Links.here;
    }
    Reach-IsTraced (next r st) = Step-IsTraced st (Reach-IsTraced r)

    -- From a start without traffic, as long as the identifiers do not run out, whatever the threads call in
    -- whatever order, with arguments as in `IsProper` and `Allowed`, and however the steps of both
    -- processes interleave, but without a SIGALRM while the reply handler runs: while the threads stand,
    -- their store, the helper process and the two channels are in a state that the system of both
    -- processes reaches.
    pub Reach-traced :
        {p : Program World}
        → Reach os (begin s0 w) p
        → (s : ThreadStore) → store_of p.system ≡ some s
        → Links.Reach os (start s0 w) (as_link s p)
    Reach-traced r s e = (Reach-IsTraced r).reached s e

-- ===== src/Program/Awaited.antt =====
-- VirtualMachine.cpp, UtilityFunctions.cpp and Machine.cpp together: each thread that waits for a reply
-- waits for one that is on its way.
use project.Prelude.{ℕ, ◌+◌, ◌≡◌, sym, ap, subst, ◌∙◌, true, false, some}
use project.Machine.Data.{find}
use project.Machine.Server.{Os}
use project.Vm.Data.{ThreadStore}
use project.Vm.Reply.{reply_signal_handler}
use project.System.Defs.{System, user, kernel, Context}
use project.System.Defs as Systems
use project.Link.Defs.{IsBeside, Link, IsUnused, start}
use project.Link.Defs as Links
use project.Link.Count.{caller_of, caller_of-owed, asked, waits, answered_by}
use project.Link.Sound.{run-Inv}
use project.Link.Handler.{handler-Reach}
use project.Spec.Kept.{io}
use project.Program.Defs.{
  Program, store_of, with_store, moved, as_link, IsOurs, HasRoom, Step, runs, beside, handles,
  Reach, here, next, begin,
}
use project.Program.Followed.{Led, Step-Led, Leads, store_of-with_store}
use project.Program.Traced.{IsTraced, Reach-IsTraced}
use project.Program.Beside.{IsBeside-OnlyTakes}
use project.Program.Registered.{AllRegistered, Talk-AllRegistered, handled-AllRegistered}

abbrev pub IsAwaited : {World : Type 0} → Program World → Type 0
IsAwaited p = (s : ThreadStore) → store_of p.system ≡ some s → AllRegistered s

same : {A : Type 0} {x y : A} → some x ≡ some y → x ≡ y
same e = cc

module _ {World : Type 0} (os : Os World) (s0 : ThreadStore) (w : World)
    (u : IsUnused s0.machine) where
  runs-IsAwaited :
      (p : Program World) {b : System} (st : Systems.Step p.system b)
      → IsOurs st
      → HasRoom (store_of p.system)
      → IsTraced os s0 w p
      → IsAwaited p
      → IsAwaited (moved p b)
  runs-IsAwaited p {b} st o room t h v k =
      Talk-AllRegistered os (as_link l.source p) (run-Inv os s0 w u (t.reached l.source l.stands))
        (subst HasRoom l.stands room) v (subst (Leads l.source) k l.leads) (h l.source l.stands)
    where
      l : Led p.system b
      l = Step-Led st o t.followed

  beside-IsAwaited :
      (p : Program World) (s : ThreadStore) {l : Link World}
      → store_of p.system ≡ some s
      → (st : Links.Step os (as_link s p) l) → IsBeside os st
      → IsAwaited p
      → (v : ThreadStore) → store_of (with_store l.store p.system) ≡ some v
      → AllRegistered v
  beside-IsAwaited p s {l} e st b h v k =
      subst AllRegistered
        (sym (IsBeside-OnlyTakes os st b)
          ∙ same (sym (store_of-with_store p.system s l.store e) ∙ k))
        (h s e)

  handles-IsAwaited :
      (p : Program World) (s s' : ThreadStore) (cs : ℕ → Context)
      → p.system ≡ user s cs
      → reply_signal_handler p.replies s ≡ some s'
      → IsTraced os s0 w p
      → IsAwaited p
      → (v : ThreadStore) → some s' ≡ some v
      → AllRegistered v
  handles-IsAwaited p s s' cs e k t h v i =
      subst AllRegistered (same i)
        (handler-Reach os s0 w u AllRegistered handled-AllRegistered p.replies (as_link s p) s' k
          (t.reached s (ap store_of e)) (h s (ap store_of e))).1

  Step-IsAwaited :
      {p p' : Program World} → Step os p p' → IsTraced os s0 w p → IsAwaited p → IsAwaited p'
  Step-IsAwaited {p} (runs st o e room) t h = runs-IsAwaited p st o room t h
  Step-IsAwaited {p} (beside s e st b) t h = beside-IsAwaited p s e st b h
  Step-IsAwaited {p} (handles s s' cs e o d m k) t h = handles-IsAwaited p s s' cs e k t h

  pub Reach-IsAwaited :
      ((t : ℕ) → io s0 t ≡ false) → {p : Program World} → Reach os (begin s0 w) p → IsAwaited p
  unfolding begin
  Reach-IsAwaited idle here v k t x =
      absurd (true_false (sym (idle t) ∙ ap (λ s. io s t) (same k) ∙ x))
    where
      true_false : false ≡ true → ⊥
      true_false z = cc
  Reach-IsAwaited idle (next r st) v k t x =
      Step-IsAwaited st (Reach-IsTraced os s0 w u r) (Reach-IsAwaited idle r) v k t x

  -- From a start at which there is no traffic and no thread waits for a reply, as long as the
  -- identifiers do not run out, whatever the threads call in whatever order, with arguments as in
  -- `IsProper` and `Allowed`, and however the steps of both processes interleave, but without a SIGALRM
  -- while the reply handler runs: while the threads stand, each thread that waits for a reply is
  -- registered under an identifier for which exactly one request on its channel, read that waits with
  -- the helper process, or reply on its channel is on the way.
  pub Reach-awaited :
      ((t : ℕ) → io s0 t ≡ false)
      → {p : Program World} → Reach os (begin s0 w) p
      → (s : ThreadStore) → store_of p.system ≡ some s
      → (t : ℕ) → io s t ≡ true
      → (id : ℕ) × (caller_of (find id s.machine.pending) ≡ some t)
        × (asked id s.machine.requests
              + waits id p.helper.server.pending_reads
              + answered_by id p.replies
            ≡ 1)
  Reach-awaited idle {p} r s e t x =
      let (id, c) = Reach-IsAwaited idle r s e t x in
      let t' : IsTraced os s0 w p = Reach-IsTraced os s0 w u r in
      (id, c, (run-Inv os s0 w u (t'.reached s e)).balance id ∙ caller_of-owed _ t c)

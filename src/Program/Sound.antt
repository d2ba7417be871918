-- ===== src/Program/Sound.antt =====
-- VirtualMachine.cpp, UtilityFunctions.cpp and Machine.cpp together: no undefined behaviour of the
-- threads while the helper process works.
use project.Prelude.{ℕ, ◌≡◌, sym, subst, ◌∙◌, Bool, some, List}
use project.Machine.Data.{Message, Machine}
use project.Machine.Server.{Os}
use project.Vm.Data.{ThreadStore, Tcb, Mutex}
use project.Vm.Run.{Run, done, switched, undefined, unfinished, aborted}
use project.Vm.Create.{new_thread_store}
use project.Vm.Reply.{reply_signal_handler}
use project.Api.Start.{boot}
use project.System.Defs.{System, user, kernel, Context}
use project.System.Sound.{
  IsSound, IsGood, IsGood-IsSound, GoodContexts, GoodContext-mono, Step-IsGood,
}
use project.Spec.Run.{Maybe}
use project.Safety.Inv.{Inv, Ensures}
use project.Safety.Safe.{Next, Grows, Grows-trans}
use project.Safety.Steps.{machine-Next}
use project.Safety.Reply.{reply_signal_handler-Next}
use project.Safety.Boot.{boot-Inv}
use project.Program.Defs.{
  Program, store_of, with_store, Step, runs, beside, handles, Reach, here, next, begin,
}
use project.Program.Beside.{IsBeside-OnlyTakes}

contexts_grow :
    (cs : ℕ → Context) (s s' : ThreadStore) → Grows s s' → GoodContexts cs s → GoodContexts cs s'
contexts_grow cs s s' n g t = GoodContext-mono t (cs t) s s' n (g t)

same : {A : Type 0} {x y : A} → some x ≡ some y → x ≡ y
same e = cc

-- A write to the machine while the threads stand.
user-IsGood :
    (s : ThreadStore) (m : Machine) (cs : ℕ → Context)
    → IsGood (user s cs)
    → IsGood (user (record s { machine = m }) cs)
user-IsGood s m cs (v, g) =
    let n = machine-Next s v m in (n.inv, contexts_grow cs s (record s { machine = m }) n.grows g)

done-IsGood :
    (a : Unit {0}) (s : ThreadStore) (m : Machine) (cs : ℕ → Context)
    → IsGood (kernel (done a s) cs)
    → IsGood (kernel (done a (record s { machine = m })) cs)
done-IsGood a s m cs (base, (v, b, c, q), g) =
    let n = machine-Next s v m in (base, (n.inv, Grows-trans b n.grows, n.current ∙ c, q), g)

switched-IsGood :
    (t : ℕ) (s : ThreadStore) (k : ThreadStore → Run (Unit {0})) (m : Machine) (cs : ℕ → Context)
    → IsGood (kernel (switched t s k) cs)
    → IsGood (kernel (switched t (record s { machine = m }) k) cs)
switched-IsGood t s k m cs (base, (v, b, c, h), g) =
    let n = machine-Next s v m in
    (base, (n.inv, Grows-trans b n.grows, c, λ s' v' g' c'. h s' v' (Grows-trans n.grows g') c'), g)

machine-IsGood :
    (a : System) (s : ThreadStore) (m : Machine)
    → store_of a ≡ some s
    → IsGood a
    → IsGood (with_store (record s { machine = m }) a)
machine-IsGood (user x cs) s m e g =
    subst (λ y. IsGood (user (record y { machine = m }) cs)) (same e) (user-IsGood x m cs g)
machine-IsGood (kernel (done a x) cs) s m e g =
    subst (λ y. IsGood (kernel (done a (record y { machine = m })) cs)) (same e)
      (done-IsGood a x m cs g)
machine-IsGood (kernel (switched t x k) cs) s m e g =
    subst (λ y. IsGood (kernel (switched t (record y { machine = m }) k) cs)) (same e)
      (switched-IsGood t x k m cs g)
machine-IsGood (kernel undefined cs) s m e g = g
machine-IsGood (kernel unfinished cs) s m e g = g
machine-IsGood (kernel aborted cs) s m e g = g

replied-IsGood :
    (s s' : ThreadStore) (cs : ℕ → Context) (queue : List Message)
    → reply_signal_handler queue s ≡ some s'
    → IsGood (user s cs)
    → IsGood (user s' cs)
replied-IsGood s s' cs queue e (v, g) =
    let n = subst (Maybe (Next s)) e (reply_signal_handler-Next queue s v) in
    (n.inv, contexts_grow cs s s' n.grows g)

module _ {World : Type 0} (os : Os World) where
  Step-keeps : {p p' : Program World} → Step os p p' → IsGood p.system → IsGood p'.system
  Step-keeps (runs st o e room) g = Step-IsGood st g
  Step-keeps {p} (beside s {l} e st b) g =
      subst (λ x. IsGood (with_store x p.system)) (sym (IsBeside-OnlyTakes os st b))
        (machine-IsGood p.system s (record s.machine { requests = l.store.machine.requests }) e g)
  Step-keeps {p} (handles s s' cs e o d m r) g =
      replied-IsGood s s' cs p.replies r (subst IsGood e g)

  Reach-keeps : {a p : Program World} → IsGood a.system → Reach os a p → IsGood p.system
  Reach-keeps g here = g
  Reach-keeps g (next r st) = Step-keeps st (Reach-keeps g r)

  module _ (tcb : ℕ → Tcb) (mutex : ℕ → Mutex) (current : ℕ) (loaded : Bool)
      (machine : Machine) where
    -- From the store that VMStart hands to the module, whatever the threads call in whatever order, with
    -- arguments as in `IsProper` and `Allowed`, and however their steps, those of the helper process and
    -- the replies interleave, as long as the identifiers do not run out, but without a SIGALRM while the
    -- reply handler runs: no call has reached a null
    -- pointer or an index out of range, and the invariant of the thread store holds wherever a thread
    -- runs module code or is switched out.
    program-IsSound :
        (param tickms : ℕ) (w : World) {s : ThreadStore} {p : Program World}
        → boot param tickms (new_thread_store tcb mutex current loaded machine) ≡ some s
        → Reach os (begin s w) p
        → IsSound p.system
    unfolding begin
    program-IsSound param tickms w {s} {p} e r = IsGood-IsSound p.system (
        Reach-keeps
          (subst (Ensures Inv) e (boot-Inv tcb mutex current loaded machine param tickms), λ t. tt)
          r)

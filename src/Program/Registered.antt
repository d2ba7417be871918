-- ===== src/Program/Registered.antt =====
-- VirtualMachine.cpp, UtilityFunctions.cpp and Machine.cpp together: the threads that wait and the
-- pending callbacks.
use project.Prelude.{
  ℕ, ◌+◌, ◌<◌, ◌≡◌, sym, ap, subst, ◌∙◌, ◌≢◌, ◌⊎◌, inl, inr, true, none, some, List, arith, ◌==◌,
  Bool-cases, eq_of_==,
}
use project.Machine.Data.{Message, PendingCallback, find, erase, insert}
use project.Machine.Server.{Os}
use project.Vm.Data.{ThreadStore}
use project.Link.Defs.{Link, IsFile}
use project.Link.Count.{caller_of, find-insert_lem, find-erase_lem}
use project.Link.Inv.{Inv}
use project.Link.Requests.{IsAsked, Asks-IsAsked, Asks-Named}
use project.Link.Moves.{IsHandled}
use project.Spec.Kept.{io}
use project.Quiet.Talk.{Talk, silent, asks, Still}

-- The thread is registered for a reply.
abbrev pub IsRegistered : List (ℕ × PendingCallback) → ℕ → Type 0
IsRegistered pending t = (id : ℕ) × (caller_of (find id pending) ≡ some t)

abbrev pub AllRegistered : ThreadStore → Type 0
AllRegistered s = (t : ℕ) → io s t ≡ true → IsRegistered s.machine.pending t

pub Still-AllRegistered : (s u : ThreadStore) → Still s u → AllRegistered s → AllRegistered u
Still-AllRegistered s u k h t w =
    subst (λ p. IsRegistered p t) (sym k.quiet.pending) (h t (k.calm t w))

-- Another entry, under a new identifier.
insert-IsRegistered :
    (p : List (ℕ × PendingCallback)) (k : ℕ) (c : PendingCallback) (t : ℕ)
    → find k p ≡ none
    → IsRegistered p t
    → IsRegistered (insert k c p) t
insert-IsRegistered p k c t e (id, f) = (
  id,
  rw (find-insert_lem id k c p) (elim (Bool-cases (k == id)) [
    | inl b ↦
        absurd (none_some (sym (ap caller_of (sym (ap (λ i. find i p) (eq_of_== k id b)) ∙ e)) ∙ f))
    | inr b ↦ rw b f
  ]),
)
  where
    none_some : none ≡ some t → ⊥
    none_some x = cc

erase-IsRegistered :
    (p : List (ℕ × PendingCallback)) (k t : ℕ)
    → caller_of (find k p) ≢ some t
    → IsRegistered p t
    → IsRegistered (erase k p) t
erase-IsRegistered p k t n (id, f) = (
  id,
  rw (find-erase_lem id k p) (elim (Bool-cases (k == id)) [
    | inl b ↦ absurd (n (ap (λ i. caller_of (find i p)) (eq_of_== k id b) ∙ f))
    | inr b ↦ rw b f
  ]),
)

module _ {World : Type 0} (os : Os World) (l : Link World) (v : Inv os l)
    (small : l.store.machine.request_id < 4294967295) where
  pub Talk-AllRegistered :
      (u : ThreadStore) → Talk l.store u → AllRegistered l.store → AllRegistered u
  Talk-AllRegistered u (silent k) h t x = Still-AllRegistered l.store u k h t x
  Talk-AllRegistered u (asks s m k a e q w) h t x = from (w t x)
    where
      room : s.machine.request_id < 4294967295
      room = subst (λ n. n < 4294967295) (sym k.quiet.request_id) small

      ready : s.machine.initialized ≡ true
      ready = k.quiet.initialized ∙ v.ready

      asked : IsAsked os s.machine m
      asked = Asks-IsAsked os s.current_thread s.machine ready room m a e

      unused : find (s.machine.request_id + 1) s.machine.pending ≡ none
      unused =
          ap (find (s.machine.request_id + 1)) k.quiet.pending
          ∙ v.fresh (s.machine.request_id + 1) (omega (arith, k.quiet.request_id))

      from :
          (io s t ≡ true) ⊎ ((s.current_thread ≡ t) × IsFile a) → IsRegistered u.machine.pending t
      from (inl y) =
          subst (λ p. IsRegistered p t) (sym (q.pending ∙ asked.pending))
            (insert-IsRegistered s.machine.pending (s.machine.request_id + 1) asked.entry t unused
              (Still-AllRegistered l.store s k h t y))
      from (inr (c, f)) =
          subst (λ p. IsRegistered p t) (sym q.pending)
            (subst (λ i. IsRegistered m.pending i) c
              (Asks-Named os s.current_thread s.machine ready room m a f e))

pub handled-AllRegistered :
    (q : Message) (s s' : ThreadStore) → IsHandled q s s' → AllRegistered s → AllRegistered s'
handled-AllRegistered q s s' h g t w =
    let (old, other) = h.waiting t w in
    subst (λ p. IsRegistered p t) (sym h.erased)
      (erase-IsRegistered s.machine.pending q.request_id t other (g t old))

-- ===== src/Link/Finish.antt =====
-- Machine.cpp: the helper process at work while the virtual machine stands, until nothing is left to do.
use project.Prelude.{
  ℕ, ◌≡◌, refl, ap, subst, ◌∙◌, Bool, true, false, none, some, List, [], ◌∷◌, ◌++◌, All,
}
use project.Machine.Data.{Message}
use project.Machine.Server.{Os, receive, Outcome}
use project.Link.Defs.{
  Link, Step, receives, drains, polling, receiving, reading, drained, received, receive_next,
  requests_of, with_requests,
}
use project.Link.Count.{wants_reply}
use project.Link.Inv.{IsFormed}
use project.Link.Moves.{Moves}
use project.Link.Covered.{Keeps, receive-Keeps}
use project.Link.Sound.{Step-Inv, taken}
use project.Link.Work.{Work, go, IsAt, loop}

module _ {World : Type 0} (os : Os World) where
  -- Nothing is to be received.
  pub record IsDrained (l : Link World) : Type 0 where
    pub requests : requests_of l ≡ []
    pub pending_request : l.helper.pending_request ≡ false

  received_next :
      (a l : Link World) (revents : ℕ → Bool) (q : Message) (rest : List Message)
      → requests_of l ≡ q ∷ rest
      → IsAt os (receiving revents) l
      → Work os a l
      → (l1 : Link World) × Work os a l1
        × IsAt os (receiving revents) l1
        × (requests_of l1 ≡ rest)
        × (l1.helper.signal ≡ l.helper.signal)
  unfolding receive_next
  received_next a l revents q rest e t w =
      from (receive os q l.helper.server l.helper.world) (taken os l q rest e t.inv) keeps refl
    where
      keeps : Keeps os q l.helper.server (receive os q l.helper.server l.helper.world)
      keeps =
          receive-Keeps os l.store.machine.pending q l.helper.server l.helper.world
            (subst (All (IsFormed os l.store.machine.pending)) e t.inv.formed).0 t.covered

      wanted : All (λ q. wants_reply q ≡ true) (q ∷ rest)
      wanted = subst (All (λ q. wants_reply q ≡ true)) e t.wanted

      from :
          (o : Outcome World)
          → Moves os l.store.machine.pending q l.helper.server o
          → Keeps os q l.helper.server o
          → receive os q l.helper.server l.helper.world ≡ o
          → (l1 : Link World) × Work os a l1
            × IsAt os (receiving revents) l1
            × (requests_of l1 ≡ rest)
            × (l1.helper.signal ≡ l.helper.signal)
      from none m k f = absurd m
      from (some (x, v, out)) m (c, n) f =
          let l1 : Link World = record l {
            store = with_requests rest l.store;
            helper = record l.helper { server = v; world = x };
            replies = l.replies ++ out;
          } in
          let st : Step os l l1 =
            receives revents q rest t.at e (ap (received os (with_requests rest l.store) l) f) in
          (
            l1,
            go w st tt,
            record {
              at = t.at;
              owes_signal = t.owes_signal;
              terminated = n wanted.0 ∙ t.terminated;
              wanted = wanted.1;
              inv = Step-Inv os st t.inv;
              covered = c;
            },
            refl,
            refl,
          )

  drain :
      (queue : List Message) (a l : Link World) (revents : ℕ → Bool)
      → requests_of l ≡ queue
      → IsAt os (receiving revents) l
      → Work os a l
      → (l1 : Link World) × Work os a l1
        × IsAt os (reading revents l1.helper.server.poll_fds) l1
        × IsDrained l1
        × (l1.helper.signal ≡ l.helper.signal)
  unfolding drained
  drain [] a l revents e t w =
      let st : Step os l (record l { helper = drained revents l.helper }) = drains revents t.at e in
      (
        record l { helper = drained revents l.helper },
        go w st tt,
        record {
          at = refl;
          owes_signal = t.owes_signal;
          terminated = t.terminated;
          wanted = t.wanted;
          inv = t.inv;
          covered = t.covered;
        },
        record { requests = e; pending_request = refl },
        refl,
      )
  drain (q ∷ rest) a l revents e t w =
      let (l1, w1, t1, e1, s1) = received_next a l revents q rest e t w in
      let (l2, w2, t2, d, s2) = drain rest a l1 revents e1 t1 w1 in (l2, w2, t2, d, s2 ∙ s1)

  -- Behind a round that has received all messages.
  pub record IsClear (a l : Link World) : Type 0 where
    pub worked : Work os a l
    pub is_at : IsAt os polling l
    pub is_drained : IsDrained l

  pub drained_round :
      (a l : Link World) (revents : ℕ → Bool)
      → IsAt os (receiving revents) l
      → Work os a l
      → (l1 : Link World) × IsClear a l1 × (l1.helper.signal ≡ l.helper.signal)
  drained_round a l revents t w =
      let (l1, w1, t1, d, s1) = drain (requests_of l) a l revents refl t w in
      let (l2, r) = loop os a revents l1.helper.server.poll_fds l1 t1 w1 in
      (
        l2,
        record {
          worked = r.worked;
          is_at = r.is_at;
          is_drained = record {
            requests = ap (λ s. s.machine.requests) r.store ∙ d.requests;
            pending_request = r.pending_request ∙ d.pending_request;
          };
        },
        r.signal ∙ s1,
      )

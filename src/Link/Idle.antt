-- ===== src/Link/Idle.antt =====
-- Machine.cpp: the helper process comes to an end of its work.
use project.Prelude.{
  ◌≡◌, refl, sym, ap, subst, ◌∙◌, ◌≢◌, inl, inr, true, false, ◌||◌, [], arith, Bool-cases, length,
  All,
}
use project.Machine.Server.{Os}
use project.Vm.Data.{ThreadStore}
use project.Link.Defs.{
  start, IsUnused, Reach, Link, notify, polling, receiving, reading, stopped, requests_of, Phase,
}
use project.Link.Count.{wants_reply}
use project.Link.Covered.{Reach-IsCovered}
use project.Link.Sound.{run-Inv}
use project.Link.Wakeup.{IsNoticed, Reach-IsNoticed}
use project.Link.Work.{Work, stay, go, Work-Reach, IsAt, loop}
use project.Link.Finish.{IsClear, drained_round}
use project.Link.Rounds.{told_round, read_all}

module _ {World : Type 0} (os : Os World) where
  module _ (a : Link World) where
    settled :
        (l : Link World)
        → IsAt os polling l
        → IsNoticed l
        → Work os a l
        → (l1 : Link World) × IsClear os a l1 × (l1.helper.signal ≡ false)
    settled l t n w = elim (Bool-cases (l.helper.pending_request || l.helper.signal)) [
      | inl e ↦ told_round os a l t e w
      | inr e ↦ (
        l,
        record {
          worked = w;
          is_at = t;
          is_drained = record { requests = empty e n; pending_request = ground (arith, e) };
        },
        ground (arith, e),
      )
    ]
      where
        empty :
            (l.helper.pending_request || l.helper.signal) ≡ false → IsNoticed l → requests_of l ≡ []
        empty e (inl h) = h
        empty e (inr h) = absurd (ground (arith, e, h, t.owes_signal))

    polls_again :
        (phase : Phase) (l : Link World)
        → phase ≢ stopped
        → IsAt os phase l
        → Work os a l
        → (l1 : Link World) × Work os a l1 × IsAt os polling l1
    polls_again polling l n t w = (l, w, t)
    polls_again (receiving revents) l n t w =
        let (l1, c, e) = drained_round os a l revents t w in (l1, c.worked, c.is_at)
    polls_again (reading revents fds) l n t w =
        let (l1, r) = loop os a revents fds l t w in (l1, r.worked, r.is_at)
    polls_again stopped l n t w = absurd (n refl)

  -- The signal is sent.
  notified :
      (l : Link World)
      → (l1 : Link World) × Work os l l1
        × (l1.owes_signal ≡ false)
        × (l1.helper.phase ≡ l.helper.phase)
        × (l1.helper.server ≡ l.helper.server)
        × (l1.store ≡ l.store)
  notified l = elim (Bool-cases l.owes_signal) [
    | inl e ↦ (
      record l { owes_signal = false; helper = record l.helper { signal = true } },
      go stay (notify e) tt,
      refl,
      refl,
      refl,
      refl,
    )
    | inr e ↦ (l, stay, e, refl, refl, refl)
  ]

  -- From every state that the two processes reach from one without traffic, as long as the identifiers do
  -- not run out, and in which the helper process has not stopped, has not been asked to end, and no such
  -- request is on its channel: the signal and steps of the helper process alone lead to a state in
  -- which no request is on the channel, no read waits with the helper process, and the signal is sent,
  -- where poll may report an event for every descriptor.
  pub Reach-idle :
      (s : ThreadStore) (w : World) {l : Link World}
      → IsUnused s.machine
      → Reach os (start s w) l
      → l.helper.phase ≢ stopped
      → l.helper.server.terminated ≡ false
      → All (λ q. wants_reply q ≡ true) (requests_of l)
      → (l' : Link World) × Work os l l'
        × (l'.owes_signal ≡ false)
        × (requests_of l' ≡ [])
        × (l'.helper.server.pending_reads ≡ [])
  Reach-idle s w {l} u r n e q =
      let (l1, w1, o1, p1, v1, s1) = notified l in
      let r1 : Reach os (start s w) l1 = Work-Reach os r w1 in
      let t1 : IsAt os l1.helper.phase l1 = record {
        at = refl;
        owes_signal = o1;
        terminated = ap (λ v. v.terminated) v1 ∙ e;
        wanted = subst (λ x. All (λ q. wants_reply q ≡ true) x.machine.requests) (sym s1) q;
        inv = run-Inv os s w u r1;
        covered = Reach-IsCovered os s w u r1;
      } in
      let (l2, w2, t2) = polls_again l l1.helper.phase l1 (λ h. n (sym p1 ∙ h)) t1 w1 in
      let (l3, c3, e3) = settled l l2 t2 (Reach-IsNoticed os s w u (Work-Reach os r w2)) w2 in
      let (l4, c4, e4) =
        read_all os l (length l3.helper.server.pending_reads) l3 (omega arith) c3 e3 in
      (l4, c4.worked, c4.is_at.owes_signal, c4.is_drained.requests, e4)

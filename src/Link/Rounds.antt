-- ===== src/Link/Rounds.antt =====
-- Machine.cpp: the helper process in rounds of poll.
use project.Prelude.{
  ℕ, zero, suc, ◌≤◌, ◌<◌, ◌≡◌, refl, sym, ap, subst, ◌∙◌, Bool, true, false, ◌&&◌, ◌||◌, List, [],
  ◌∷◌, arith, length, ==_refl,
}
use project.Machine.Server.{PendingRead, Os, polls}
use project.Machine.Poll.{reads}
use project.Link.Defs.{Polled, Link, Helper, wakes, polling, receiving, reading, wake, Phase}
use project.Link.Reads.{Covers}
use project.Link.Inv.{Traffic}
use project.Link.Work.{Work, go, IsAt, loop}
use project.Link.Finish.{IsClear, drained_round}

-- Every descriptor that is polled has an event.
abbrev ready : Polled
ready = record { revents = λ _. true; timed_out = false; parent_gone = false }

no_path : false ≡ true → ⊥
no_path k = cc

module _ {World : Type 0} (os : Os World) where
  abbrev events : Link World → ℕ → Bool
  events l fd = polls fd l.helper.server.poll_fds && true

  abbrev told : Link World → Link World
  told l = record l {
    helper = record l.helper {
      pending_request = true;
      signal = false;
      phase = receiving (events l);
    };
  }

  abbrev woken : Link World → Link World
  woken l = record l {
    helper = record l.helper { phase = reading (events l) l.helper.server.poll_fds };
  }

  wake-told :
      (h : Helper World)
      → (h.pending_request || h.signal) ≡ true
      → wake ready h ≡ record h {
        pending_request = true;
        signal = false;
        phase = receiving (λ fd. polls fd h.server.poll_fds && true);
      }
  unfolding wake
  wake-told h e = rw e refl

  wake-woken :
      (h : Helper World)
      → (h.pending_request || h.signal) ≡ false
      → wake ready h
        ≡ record h { phase = reading (λ fd. polls fd h.server.poll_fds && true) h.server.poll_fds }
  unfolding wake
  wake-woken h e = rw e refl

  moved-IsAt :
      (phase phase' : Phase) (l : Link World) (h : Helper World)
      → h.phase ≡ phase'
      → h.server ≡ l.helper.server
      → IsAt os phase l
      → IsAt os phase' (record l { helper = h })
  moved-IsAt phase phase' l h e k t = record {
    at = e;
    owes_signal = t.owes_signal;
    terminated = ap (λ v. v.terminated) k ∙ t.terminated;
    wanted = t.wanted;
    inv = subst (λ v. Traffic os l.store.machine v.pending_reads l.replies) (sym k) t.inv;
    covered = subst (λ v. Covers v.poll_fds v.pending_reads) (sym k) t.covered;
  }

  module _ (a : Link World) where
    -- A round in which the helper process has been told of requests.
    pub told_round :
        (l : Link World)
        → IsAt os polling l
        → (l.helper.pending_request || l.helper.signal) ≡ true
        → Work os a l
        → (l1 : Link World) × IsClear os a l1 × (l1.helper.signal ≡ false)
    told_round l t e w =
        drained_round os a (told l) (events l)
          (moved-IsAt polling (receiving (events l)) l (told l).helper refl refl t)
          (subst (λ h. Work os a (record l { helper = h })) (wake-told l.helper e)
            (go w (wakes ready t.at) tt))

    read_round :
        (l : Link World)
        → IsClear os a l
        → l.helper.signal ≡ false
        → (l1 : Link World) × IsClear os a l1
          × (l1.helper.signal ≡ false)
          × ((fd : ℕ)
              → reads fd l.helper.server.pending_reads ≡ true
              → length l1.helper.server.pending_reads < length l.helper.server.pending_reads)
    read_round l c e =
        let quiet : (l.helper.pending_request || l.helper.signal) ≡ false =
          rw (c.is_drained.pending_request, e) refl in
        let w : Work os a (woken l) =
          subst (λ h. Work os a (record l { helper = h })) (wake-woken l.helper quiet)
            (go c.worked (wakes ready c.is_at.at) tt) in
        let (l1, r) =
          loop os a (events l) l.helper.server.poll_fds (woken l)
            (moved-IsAt polling (reading (events l) l.helper.server.poll_fds) l (woken l).helper
              refl refl c.is_at)
            w in
        (
          l1,
          record {
            worked = r.worked;
            is_at = r.is_at;
            is_drained = record {
              requests = ap (λ s. s.machine.requests) r.store ∙ c.is_drained.requests;
              pending_request = r.pending_request ∙ c.is_drained.pending_request;
            };
          },
          r.signal ∙ e,
          λ fd k.
              let p : polls fd l.helper.server.poll_fds ≡ true = c.is_at.covered fd k in
              r.strictly fd p (rw p refl) k,
        )

    -- As many rounds as reads wait are enough.
    pub read_all :
        (n : ℕ) (l : Link World)
        → length l.helper.server.pending_reads ≤ n
        → IsClear os a l
        → l.helper.signal ≡ false
        → (l1 : Link World) × IsClear os a l1 × (l1.helper.server.pending_reads ≡ [])
    read_all zero l k c e = (l, c, none_left l.helper.server.pending_reads k)
      where
        none_left : (rs : List PendingRead) → length rs ≤ 0 → rs ≡ []
        none_left [] h = refl
        none_left (r ∷ rs) h = absurd (omega (arith, h))
    read_all (suc n) l k c e =
        from (λ x i d b. read_all n x i d b) l.helper.server.pending_reads refl
      where
        from :
            ((x : Link World)
              → length x.helper.server.pending_reads ≤ n
              → IsClear os a x
              → x.helper.signal ≡ false
              → (l1 : Link World) × IsClear os a l1 × (l1.helper.server.pending_reads ≡ []))
            → (rs : List PendingRead) → l.helper.server.pending_reads ≡ rs
            → (l1 : Link World) × IsClear os a l1 × (l1.helper.server.pending_reads ≡ [])
        from again [] q = (l, c, q)
        from again (r ∷ rs) q =
            let (l1, c1, e1, less) = read_round l c e in
            let there : reads r.file_descriptor l.helper.server.pending_reads ≡ true =
              ap (reads r.file_descriptor) q ∙ (rw (==_refl r.file_descriptor) refl) in
            again l1 (omega (arith, less r.file_descriptor there, k)) c1 e1

-- ===== src/Link/Work.antt =====
-- Machine.cpp: the helper process at work while the virtual machine stands: the loop over the
-- descriptors.
use project.Prelude.{
  Option, none, some, ℕ, ◌≤◌, ◌<◌, ◌≡◌, refl, sym, ap, subst, ◌∙◌, ◌⊎◌, inl, inr, Bool, true, false,
  ◌||◌, List, [], ◌∷◌, arith, ◌==◌, Bool-cases, eq_of_==, length, All,
}
use project.Machine.Server.{PendingRead, Os, polls}
use project.Machine.Poll.{reads}
use project.Link.Defs.{
  Reach, next, Link, Step, performs, finishes, IsBeside, polling, reading, round_done, read_next,
  requests_of, Phase,
}
use project.Link.Count.{wants_reply}
use project.Link.Inv.{Inv}
use project.Link.Covered.{IsCovered, IsPerformed, read_next-IsPerformed, Step-IsCovered}
use project.Link.Sound.{Step-Inv, Goes, read_next-Goes}

module _ {World : Type 0} (os : Os World) where
  -- Steps of the helper process, and the signal.
  pub data Work (a : Link World) : Link World → Type 0 where
    stay : Work a a
    go : {b c : Link World} → Work a b → (st : Step os b c) → IsBeside os st → Work a c

  pub Work-Reach : {a b c : Link World} → Reach os a b → Work b c → Reach os a c
  Work-Reach r stay = r
  Work-Reach r (go w st b) = next (Work-Reach r w) st

  -- The helper process has not been asked to end, and the signal is sent.
  pub record IsAt (phase : Phase) (l : Link World) : Type 0 where
    pub at : l.helper.phase ≡ phase
    pub owes_signal : l.owes_signal ≡ false
    pub terminated : l.helper.server.terminated ≡ false
    pub wanted : All (λ q. wants_reply q ≡ true) (requests_of l)
    pub inv : Inv os l
    pub covered : IsCovered l

  -- Behind the loop over the descriptors.
  pub record IsRound (a l : Link World) (revents : ℕ → Bool) (fds : List ℕ) (l' : Link World)
      : Type 0 where
    pub worked : Work a l'
    pub is_at : IsAt polling l'
    pub store : l'.store ≡ l.store
    pub signal : l'.helper.signal ≡ l.helper.signal
    pub pending_request : l'.helper.pending_request ≡ l.helper.pending_request
    pub fewer : length l'.helper.server.pending_reads ≤ length l.helper.server.pending_reads
    pub strictly :
        (fd : ℕ)
        → polls fd fds ≡ true
        → revents fd ≡ true
        → reads fd l.helper.server.pending_reads ≡ true
        → length l'.helper.server.pending_reads < length l.helper.server.pending_reads

  module _ (a : Link World) (revents : ℕ → Bool) where
    last-IsRound :
        (l : Link World)
        → IsAt (reading revents []) l
        → Work a l
        → IsRound a l revents [] (record l { helper = round_done l.helper })
    unfolding round_done polls
    last-IsRound l t w =
        let st : Step os l (record l { helper = round_done l.helper }) = finishes revents t.at in
        record {
          worked = go w st tt;
          is_at = record {
            at = rw t.terminated refl;
            owes_signal = t.owes_signal;
            terminated = t.terminated;
            wanted = t.wanted;
            inv = Step-Inv os st t.inv;
            covered = Step-IsCovered os st t.inv t.covered;
          };
          store = refl;
          signal = refl;
          pending_request = refl;
          fewer = omega arith;
          strictly = λ fd e f g. absurd (false_true e);
        }
      where
        false_true : false ≡ true → ⊥
        false_true k = cc

    performed-IsAt :
        (fd : ℕ) (fds : List ℕ) (l l1 : Link World)
        → IsPerformed os revents fd fds l l1
        → Step os l l1
        → IsAt (reading revents (fd ∷ fds)) l
        → IsAt (reading revents fds) l1
    performed-IsAt fd fds l l1 p st t = record {
      at = p.phase;
      owes_signal = p.owes_signal ∙ t.owes_signal;
      terminated = p.terminated ∙ t.terminated;
      wanted =
          subst (λ s. All (λ q. wants_reply q ≡ true) s.machine.requests) (sym p.store) t.wanted;
      inv = Step-Inv os st t.inv;
      covered = p.covered t.covered;
    }

    further :
        (fd : ℕ) (fds : List ℕ) (l l1 l' : Link World)
        → IsPerformed os revents fd fds l l1
        → IsRound a l1 revents fds l'
        → IsRound a l revents (fd ∷ fds) l'
    unfolding polls
    further fd fds l l1 l' p r = record {
      worked = r.worked;
      is_at = r.is_at;
      store = r.store ∙ p.store;
      signal = r.signal ∙ p.signal;
      pending_request = r.pending_request ∙ p.pending_request;
      fewer = fewer p.fewer;
      strictly = λ g e f h. strictly g f h (Bool-cases (fd == g)) e p.fewer;
    }
      where
        old : List PendingRead
        old = l.helper.server.pending_reads

        new : List PendingRead
        new = l1.helper.server.pending_reads

        true_false : false ≡ true → ⊥
        true_false k = cc

        fewer :
            (length new < length old) ⊎ ((new ≡ old) × (revents fd ≡ true → reads fd old ≡ false))
            → length l'.helper.server.pending_reads ≤ length old
        fewer (inl n) = omega (arith, n, r.fewer)
        fewer (inr (e, n)) = omega (arith, ap length e, r.fewer)

        strictly :
            (g : ℕ)
            → revents g ≡ true
            → reads g old ≡ true
            → ((fd == g) ≡ true) ⊎ ((fd == g) ≡ false)
            → (fd == g || polls g fds) ≡ true
            → (length new < length old) ⊎ ((new ≡ old) × (revents fd ≡ true → reads fd old ≡ false))
            → length l'.helper.server.pending_reads < length old
        strictly g f h c e (inl n) = omega (arith, n, r.fewer)
        strictly g f h (inl c) e (inr (i, n)) =
            let q : fd ≡ g = eq_of_== fd g c in
            absurd (
              true_false
                (sym (n (subst (λ x. revents x ≡ true) (sym q) f)) ∙ ap (λ x. reads x old) q ∙ h))
        strictly g f h (inr c) e (inr (i, n)) =
            let k : length l'.helper.server.pending_reads < length new =
              r.strictly g (rw c at e) f (ap (reads g) i ∙ h) in
            omega (arith, k, ap length i)

    -- One descriptor of the loop: the read is performed, if there is one.
    next_read :
        (fd : ℕ) (fds : List ℕ) (l : Link World)
        → Inv os l
        → (l1 : Link World) × (read_next os revents fd fds l ≡ some l1)
    next_read fd fds l v =
        from (read_next os revents fd fds l) (read_next-Goes os revents fd fds l v)
      where
        from : (o : Option (Link World)) → Goes os o → (l1 : Link World) × (o ≡ some l1)
        from none h = absurd h
        from (some l1) h = (l1, refl)

    pub loop :
        (fds : List ℕ) (l : Link World)
        → IsAt (reading revents fds) l
        → Work a l
        → (l' : Link World) × IsRound a l revents fds l'
    loop [] l t w = (record l { helper = round_done l.helper }, last-IsRound l t w)
    loop (fd ∷ fds) l t w =
        let (l1, k) = next_read fd fds l t.inv in
        let p = read_next-IsPerformed os revents fd fds l l1 k in
        let st : Step os l l1 = performs revents fd fds t.at k in
        let (l', r) = loop fds l1 (performed-IsAt fd fds l l1 p st t) (go w st tt) in
        (l', further fd fds l l1 l' p r)

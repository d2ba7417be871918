-- ===== src/Program/Answered.antt =====
-- VirtualMachine.cpp, UtilityFunctions.cpp and Machine.cpp together: every thread that waits can be
-- answered.
use project.Prelude.{
  ℕ, ◌+◌, ◌≡◌, refl, sym, ap, subst, ◌∙◌, ◌≢◌, inl, inr, Bool, true, false, ◌||◌, [], arith, ltb,
  Bool-cases, length, All,
}
use project.Machine.Server.{Os}
use project.Vm.Data.{ThreadStore}
use project.System.Defs.{user, Context}
use project.Link.Defs.{Link, IsUnused, stopped, requests_of}
use project.Link.Count.{wants_reply, asked, waits, answered_by}
use project.Link.Handler.{handler-Reach, handler-total}
use project.Link.Work.{Work, stay, go}
use project.Link.Idle.{Reach-idle}
use project.Spec.Kept.{io}
use project.Program.Defs.{Program, as_link, Step, runs, beside, handles, Reach, next, begin, usr2}
use project.Program.Beside.{IsBeside-OnlyTakes}
use project.Program.Due.{IsDue, Reach-IsDue}
use project.Program.Traced.{Reach-traced}
use project.Program.Awaited.{Reach-awaited}

abbrev in_user : {World : Type 0} → Bool → (ℕ → Context) → Link World → Program World
in_user due cs l = record {
  system = user l.store cs;
  owes_signal = l.owes_signal;
  helper = l.helper;
  replies = l.replies;
  reply_signal = due;
}

module _ {World : Type 0} (os : Os World) where
  -- No step of the threads.
  abbrev pub IsAside : {p p' : Program World} → Step os p p' → Type 0
  IsAside (runs st o e room) = ⊥
  IsAside (beside s e st b) = Unit
  IsAside (handles s s' cs e o d m k) = Unit

  -- Steps of the helper process, the signal, and replies that are handled.
  pub data Served (a : Program World) : Program World → Type 0 where
    begun : Served a a
    served : {b c : Program World} → Served a b → (st : Step os b c) → IsAside st → Served a c

  Served-Reach : {a b c : Program World} → Reach os a b → Served b c → Reach os a c
  Served-Reach r begun = r
  Served-Reach r (served v st i) = next (Served-Reach r v) st

  Work-Served :
      (due : Bool) (cs : ℕ → Context) {l l' : Link World}
      → Work os l l'
      → (due' : Bool) × Served (in_user due cs l) (in_user due' cs l')
        × (l'.store.machine.mask ≡ l.store.machine.mask)
  Work-Served due cs stay = (due, begun, refl)
  Work-Served due cs (go {b} {c} w st i) =
      let (due1, v, m) = Work-Served due cs w in
      (
        due1 || ltb (length b.replies) (length c.replies),
        served v (beside b.store refl st i) tt,
        ap (λ s. s.machine.mask) (IsBeside-OnlyTakes os st i) ∙ m,
      )

  module _ (s0 : ThreadStore) (w : World) (u : IsUnused s0.machine) (cs : ℕ → Context)
      (idle : (t : ℕ) → io s0 t ≡ false) where
    -- A thread that waited would have a request, a read or a reply on the way.
    nobody_waits :
        (due : Bool) (l : Link World)
        → Reach os (begin s0 w) (in_user due cs l)
        → l.replies ≡ []
        → requests_of l ≡ []
        → l.helper.server.pending_reads ≡ []
        → (t : ℕ) → io l.store t ≡ false
    nobody_waits due l r e x d t = elim (Bool-cases (io l.store t)) [
      | inl b ↦
          let (id, c, one) = Reach-awaited os s0 w u idle r l.store refl t b in
          absurd (
            omega (
              arith,
              sym one
                  ∙ ap
                      (λ z.
                        asked id z
                        + waits id l.helper.server.pending_reads
                        + answered_by id l.replies)
                      x
                  ∙ ap (λ z. 0 + waits id z + answered_by id l.replies) d
                  ∙ ap (λ z. 0 + 0 + answered_by id z) e,
            ))
      | inr b ↦ b
    ]

    abbrev Answered : Program World → Type 0
    Answered p =
        (p' : Program World) × Served p p'
        × ((s' : ThreadStore) × (p'.system ≡ user s' cs) × ((t : ℕ) → io s' t ≡ false))

    -- The last run of the handler.
    handled_last :
        (a : Program World) (due : Bool) (l : Link World)
        → Reach os (begin s0 w) a
        → Served a (in_user due cs l)
        → l.store.machine.mask usr2 ≡ false
        → l.owes_signal ≡ false
        → requests_of l ≡ []
        → l.helper.server.pending_reads ≡ []
        → IsDue (in_user due cs l)
        → Answered a
    handled_last a due l r v m o x d (inl e) =
        (in_user due cs l, v, (l.store, refl, nobody_waits due l (Served-Reach r v) e x d))
    handled_last a due l r v m o x d (inr e) =
        let k = Reach-traced os s0 w u (Served-Reach r v) l.store refl in
        let (s, h) = handler-total os s0 w u l.replies l k in
        let (k1, x1) =
          handler-Reach os s0 w u (λ y. y.machine.requests ≡ []) (λ q y z i j. i.requests ∙ j)
            l.replies l s h k x in
        let v1 = served v (handles l.store s cs refl o e m h) tt in
        (
          in_user false cs (record l { store = s; replies = [] }),
          v1,
          (
            s,
            refl,
            nobody_waits false (record l { store = s; replies = [] }) (Served-Reach r v1) refl x1 d,
          ),
        )

    from_there :
        (due : Bool) (l : Link World)
        → Reach os (begin s0 w) (in_user due cs l)
        → l.store.machine.mask usr2 ≡ false
        → l.helper.phase ≢ stopped
        → l.helper.server.terminated ≡ false
        → All (λ q. wants_reply q ≡ true) (requests_of l)
        → Answered (in_user due cs l)
    from_there due l r m n e q =
        let (l1, w1, o1, x1, d1) =
          Reach-idle os s0 w u (Reach-traced os s0 w u r l.store refl) n e q in
        let (due1, v1, m1) = Work-Served due cs w1 in
        handled_last (in_user due cs l) due1 l1 r v1 (ap (λ f. f usr2) m1 ∙ m) o1 x1 d1
          (Reach-IsDue os s0 w (Served-Reach r v1))

  -- From a start at which there is no traffic and no thread waits for a reply, as long as the
  -- identifiers do not run out, and without a SIGALRM while the reply handler runs: in every state that
  -- the program reaches in which a thread runs the code
  -- of the module with SIGUSR2 not blocked, and in which the helper process has not stopped, has not
  -- been asked to end, and no such request is on its channel, both signals, steps of the helper process
  -- and the reply handler alone lead to a state in which no thread waits for a reply any more, where
  -- poll may report an event for every descriptor.
  pub Reach-answered :
      (s0 : ThreadStore) (w : World) {p : Program World} (s : ThreadStore) (cs : ℕ → Context)
      → IsUnused s0.machine
      → ((t : ℕ) → io s0 t ≡ false)
      → Reach os (begin s0 w) p
      → p.system ≡ user s cs
      → s.machine.mask usr2 ≡ false
      → p.helper.phase ≢ stopped
      → p.helper.server.terminated ≡ false
      → All (λ q. wants_reply q ≡ true) s.machine.requests
      → (p' : Program World) × Served p p'
        × ((s' : ThreadStore) × (p'.system ≡ user s' cs) × ((t : ℕ) → io s' t ≡ false))
  Reach-answered s0 w {p} s cs u idle r e m n k q =
      subst (λ x. Answered s0 w u cs idle (record p { system = x })) (sym e)
        (from_there s0 w u cs idle p.reply_signal (as_link s p)
          (subst (λ x. Reach os (begin s0 w) (record p { system = x })) e r) m n k q)

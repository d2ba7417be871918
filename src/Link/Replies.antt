-- ===== src/Link/Replies.antt =====
-- Machine.cpp: a reply finds the caller of its request.
use project.Prelude.{
  ℕ, ◌+◌, ◌≤◌, ◌<◌, ◌≡◌, refl, sym, ap, subst, ◌∙◌, inl, inr, Option, none, some, List, ◌∷◌, arith,
  ◌==◌, Bool-cases, eq_of_==, ==_refl,
}
use project.Machine.Data.{
  FileCallback, machine_file_io_callback, PendingCallback, Message, Machine, find, erase,
}
use project.Machine.Codec.{get_int}
use project.Machine.Server.{PendingRead, Os}
use project.Vm.Data.{ThreadStore}
use project.Vm.Reply.{handle_reply}
use project.Link.Count.{counts, asked, waits, answered_by, is_caller, owed_to, owed, find-erase_lem}
use project.Link.Inv.{Lands, Traffic}
use project.Link.Moves.{IsHandled, Handles, handle_reply-Handles}
use project.Link.Steps.{reads-erase, replies-erase, requests-erase, quiet-Traffic}

entry_of : ℕ → Option ℕ → PendingCallback
entry_of t d = record {
  callback = some machine_file_io_callback;
  calldata = some t;
  destination = d;
}

owed_to-le : (o : Option PendingCallback) → owed_to o ≤ 1
owed_to-le none = omega arith
owed_to-le (some c) = elim (Bool-cases (is_caller c.callback c.calldata)) [
  | inl e ↦ rw e (omega arith)
  | inr e ↦ rw e (omega arith)
]

-- Where a caller is owed a reply, it is there with its thread.
owed_to-entry :
    (o : Option PendingCallback)
    → 0 < owed_to o
    → (t : ℕ) × (d : Option ℕ) × (o ≡ some (entry_of t d))
unfolding entry_of
owed_to-entry none h = absurd (omega (arith, h))
owed_to-entry (some c) h = from c.callback c.calldata refl refl
  where
    from :
        (f : Option FileCallback) (t : Option ℕ)
        → c.callback ≡ f
        → c.calldata ≡ t
        → (t : ℕ) × (d : Option ℕ) × (some c ≡ some (entry_of t d))
    from none t e k = absurd (ground (arith, h, e))
    from (some f) none e k = absurd (ground (arith, h, e, k))
    from (some machine_file_io_callback) (some t) e k = (
      t,
      c.destination,
      ap (λ x. some (record c { callback = x })) e
          ∙ ap (λ x. some (record c { callback = some machine_file_io_callback; calldata = x })) k,
    )

module _ {World : Type 0} (os : Os World) (s : ThreadStore) (reads : List PendingRead) (q : Message)
    (rest : List Message) (t : Traffic os s.machine reads (q ∷ rest)) where
  p : List (ℕ × PendingCallback)
  p = s.machine.pending

  one : counts (q.request_id == q.request_id) ≡ 1
  one = rw (==_refl q.request_id)

  caller : (u : ℕ) × (d : Option ℕ) × (find q.request_id p ≡ some (entry_of u d))
  unfolding p
  caller = owed_to-entry (find q.request_id p) (omega (arith, one, t.balance q.request_id))

  pub reply-Handles : Handles q s (handle_reply q s)
  unfolding p entry_of
  reply-Handles = let (u, d, e) = caller in readable (get_int q.payload) refl u d e
    where
      readable :
          (o : Option ℕ)
          → get_int q.payload ≡ o
          → (u : ℕ) (d : Option ℕ) → find q.request_id p ≡ some (entry_of u d)
          → Handles q s (handle_reply q s)
      readable none g u d e = absurd (t.replies_fit.0.0 g)
      readable (some n) g u d e =
          handle_reply-Handles q s n u d e g
            (λ k. let (a, b) = t.replies_fit.0.1 k in (subst Lands e a, b n g))

  pub handled-Traffic : (s' : ThreadStore) → IsHandled q s s' → Traffic os s'.machine reads rest
  unfolding p
  handled-Traffic s' h =
      quiet-Traffic os erased s'.machine reads rest h.erased h.requests h.request_id h.initialized
        (record {
          ready = t.ready;
          balance = balance;
          fresh = λ id l. find-erase_lem id k p ∙ ground (arith, t.fresh id l);
          formed = requests-erase k p os s.machine.requests (omega (arith, all_gone)) t.formed;
          reads_land = reads-erase k p reads (omega (arith, all_gone)) t.reads_land;
          replies_fit = replies-erase k p rest (omega (arith, all_gone)) t.replies_fit.1;
        })
    where
      k : ℕ
      k = q.request_id

      erased : Machine
      erased = record s.machine { pending = erase k p }

      all_gone : asked k s.machine.requests + waits k reads + answered_by k rest ≡ 0
      all_gone = omega (arith, one, t.balance k, owed_to-le (find k p))

      balance :
          (id : ℕ)
          → asked id s.machine.requests + waits id reads + answered_by id rest ≡ owed id (erase k p)
      balance id = elim (Bool-cases (k == id)) [
        | inl e ↦
            let o : owed id (erase k p) ≡ 0 = ap owed_to (find-erase_lem id k p) ∙ (rw e refl) in
            let i : id ≡ k = sym (eq_of_== k id e) in
            subst
              (λ j.
                asked j s.machine.requests + waits j reads + answered_by j rest
                ≡ owed id (erase k p))
              (sym i) (omega (arith, all_gone, o))
        | inr e ↦
            let o : owed id (erase k p) ≡ owed id p =
              ap owed_to (find-erase_lem id k p) ∙ (rw e refl) in
            let z : counts (k == id) ≡ 0 = rw e refl in omega (arith, t.balance id, o, z)
      ]

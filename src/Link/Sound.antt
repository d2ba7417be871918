-- ===== src/Link/Sound.antt =====
-- Machine.cpp: the traffic in every state that the two processes reach.
use project.Prelude.{
  ℕ, ◌≡◌, refl, sym, subst, inl, inr, Bool, ◌&&◌, ◌||◌, Option, none, some, List, ◌∷◌, Bool-cases,
  All,
}
use project.Machine.Data.{Message, find}
use project.Machine.Server.{PendingRead, Server, Os, receive}
use project.Machine.Poll.{take_read, perform_read}
use project.Vm.Data.{ThreadStore}
use project.Vm.Reply.{handle_reply}
use project.Link.Defs.{
  Polled, start, IsUnused, Reach, here, next, Link, Helper, Step, work, ask, notify, wakes,
  receives, drains, performs, finishes, replies, wake, drained, received, receive_next, round_done,
  read_next, performed, requests_of, with_requests,
}
use project.Link.Inv.{IsFormed, Traffic, Inv}
use project.Link.Requests.{Asks-IsAsked}
use project.Link.Moves.{Moves, receive-Moves, IsHandled, Handles}
use project.Link.Steps.{quiet-Traffic, asked-Traffic, moved-Traffic, performed-Traffic, Balanced}
use project.Link.Replies.{reply-Handles, handled-Traffic}

pub no_result : {A : Type 0} {x : A} → none ≡ some x → ⊥
no_result e = cc

pub subst_some : {A : Type 0} (P : A → Type 0) (x y : A) → some x ≡ some y → P x → P y
subst_some P x y e h = subst P (cc) h

module _ {World : Type 0} (os : Os World) where
  wake-reads :
      (p : Polled) (h : Helper World) → (wake p h).server.pending_reads ≡ h.server.pending_reads
  unfolding wake
  wake-reads p h = elim (Bool-cases (h.pending_request || h.signal)) [
    | inl e ↦ rw e refl
    | inr e ↦ rw e (elim (Bool-cases (p.timed_out && p.parent_gone)) [
      | inl gone ↦ rw gone refl
      | inr there ↦ rw there refl
    ])
  ]

  received-Inv :
      (l l' : Link World) (q : Message) (rest : List Message)
      (o : Option (World × Server × List Message))
      → requests_of l ≡ q ∷ rest
      → Inv os l
      → Moves os l.store.machine.pending q l.helper.server o
      → received os (with_requests rest l.store) l o ≡ some l'
      → Inv os l'
  received-Inv l l' q rest none e v h k = absurd h
  received-Inv l l' q rest (some (w, v', out)) e v h k =
      subst_some (Inv os) _ l' k
        (moved-Traffic os l.store.machine l.helper.server l.replies v q rest v' out e h)

  -- One descriptor of the loop over them: no read overruns the buffer.
  abbrev pub Goes : Option (Link World) → Type 0
  Goes none = ⊥
  Goes (some l) = Inv os l

  pub read_next-Goes :
      (revents : ℕ → Bool) (fd : ℕ) (fds : List ℕ) (l : Link World)
      → Inv os l
      → Goes (read_next os revents fd fds l)
  unfolding read_next
  read_next-Goes revents fd fds l v = elim (Bool-cases (revents fd)) [
    | inl e ↦ rw e (
        from
          (perform_read os l.helper.server.buffer_kind (take_read fd l.helper.server.pending_reads)
            (l.helper.world, l.helper.server.pending_reads, l.replies))
          (performed-Traffic os l.store.machine l.helper.server l.replies v fd
            l.helper.server.buffer_kind l.helper.world))
    | inr e ↦ rw e v
  ]
    where
      from :
          (o : Option (World × List PendingRead × List Message))
          → Balanced os l.store.machine l.helper.server l.replies v o
          → Goes (performed os revents fds l o)
      from none h = h
      from (some (w, rs, out)) h = h

  read_next-Inv :
      (revents : ℕ → Bool) (fd : ℕ) (fds : List ℕ) (l l' : Link World)
      → read_next os revents fd fds l ≡ some l'
      → Inv os l
      → Inv os l'
  read_next-Inv revents fd fds l l' e v = subst Goes e (read_next-Goes revents fd fds l v)

  pub taken :
      (l : Link World) (q : Message) (rest : List Message)
      → requests_of l ≡ q ∷ rest
      → Inv os l
      → Moves os l.store.machine.pending q l.helper.server
          (receive os q l.helper.server l.helper.world)
  taken l q rest e v =
      receive-Moves os l.store.machine.pending q l.helper.server l.helper.world
        (subst (All (IsFormed os l.store.machine.pending)) e v.formed).0 v.reads_land

  pub handled :
      (l : Link World) (q : Message) (rest : List Message) (s : ThreadStore)
      → l.replies ≡ q ∷ rest
      → handle_reply q l.store ≡ some s
      → Inv os l
      → IsHandled q l.store s
  handled l q rest s e h v = subst (Handles q l.store) h (
      reply-Handles os l.store l.helper.server.pending_reads q rest
        (subst (Traffic os l.store.machine l.helper.server.pending_reads) e v))

  handled-Inv :
      (l : Link World) (q : Message) (rest : List Message) (s : ThreadStore)
      → l.replies ≡ q ∷ rest
      → handle_reply q l.store ≡ some s
      → Inv os l
      → Inv os (record l { store = s; replies = rest })
  handled-Inv l q rest s e h v =
      handled-Traffic os l.store l.helper.server.pending_reads q rest
        (subst (Traffic os l.store.machine l.helper.server.pending_reads) e v) s
        (handled l q rest s e h v)

  pub Step-Inv : {l l' : Link World} → Step os l l' → Inv os l → Inv os l'
  unfolding receive_next drained round_done
  Step-Inv {l} (work s q) v =
      quiet-Traffic os l.store.machine s.machine l.helper.server.pending_reads l.replies q.pending
        q.requests q.request_id q.initialized v
  Step-Inv {l} (ask t m o small a e) v =
      asked-Traffic os l.store.machine m l.helper.server.pending_reads l.replies
        (Asks-IsAsked os t l.store.machine v.ready small m a e) v
  Step-Inv (notify e) v = v
  Step-Inv {l} (wakes p e) v =
      subst (λ r. Traffic os l.store.machine r l.replies) (sym (wake-reads p l.helper)) v
  Step-Inv {l} {l'} (receives revents q rest e k h) v =
      received-Inv l l' q rest (receive os q l.helper.server l.helper.world) k v
        (taken l q rest k v) h
  Step-Inv (drains revents e k) v = v
  Step-Inv {l} {l'} (performs revents fd fds e k) v = read_next-Inv revents fd fds l l' k v
  Step-Inv (finishes revents e) v = v
  Step-Inv {l} (replies q rest s e h) v = handled-Inv l q rest s e h v

  Reach-Inv : {a l : Link World} → Inv os a → Reach os a l → Inv os l
  Reach-Inv v here = v
  Reach-Inv v (next r s) = Step-Inv s (Reach-Inv v r)

  pub start-Inv : (s : ThreadStore) (w : World) → IsUnused s.machine → Inv os (start s w)
  unfolding start find
  start-Inv s w u = record {
    ready = u.initialized;
    balance = λ id. rw (u.pending, u.requests);
    fresh = λ id h. rw u.pending;
    formed = rw u.requests tt;
    reads_land = tt;
    replies_fit = tt;
  }

  pub run-Inv :
      (s : ThreadStore) (w : World) {l : Link World}
      → IsUnused s.machine
      → Reach os (start s w) l
      → Inv os l
  run-Inv s w u r = Reach-Inv (start-Inv s w u) r

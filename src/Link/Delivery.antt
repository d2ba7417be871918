-- ===== src/Link/Delivery.antt =====
-- Machine.cpp: what becomes of each request and each reply.
use project.Prelude.{ℕ, ◌+◌, ◌≡◌, refl, subst, ◌∙◌, Bool, false, Option, none, some, List, [], ◌∷◌}
use project.Machine.Data.{Message}
use project.Machine.Server.{Server, Os, receive}
use project.Vm.Data.{ThreadStore}
use project.Vm.Reply.{handle_reply}
use project.Link.Defs.{
  start, IsUnused, receiving, reading, Reach, Link, Step, receives, drains, drained, received,
  receive_next, requests_of, with_requests,
}
use project.Link.Count.{asked, waits, answered_by, owed}
use project.Link.Inv.{Traffic, Inv}
use project.Link.Moves.{Moves, Handles}
use project.Link.Replies.{reply-Handles}
use project.Link.Sound.{run-Inv, taken, Step-Inv}
use project.Link.Work.{Work, stay, go}

module _ {World : Type 0} (os : Os World) (s : ThreadStore) (w : World) (u : IsUnused s.machine)
    {l : Link World} (r : Reach os (start s w) l) where
  -- From two processes without traffic, as long as the identifiers do not run out, and whatever is
  -- asked for in whatever order, with arguments as in `Asks`: for every identifier, the request on its
  -- channel, the read that waits with the helper process and the reply on its channel are together
  -- exactly one if a thread is registered for a reply under it, and none otherwise.
  pub Reach-owed :
      (id : ℕ)
      → asked id (requests_of l) + waits id l.helper.server.pending_reads + answered_by id l.replies
        ≡ owed id l.store.machine.pending
  Reach-owed = (run-Inv os s w u r).balance

  -- From two processes without traffic, as long as the identifiers do not run out: the first reply on
  -- the channel, if there is one, is handled without a null pointer and without a read past its end,
  -- and it is not passed over: its entry among the pending callbacks is erased, and nothing else of
  -- the requests changes.
  pub Reach-Handles :
      (q : Message) (rest : List Message)
      → l.replies ≡ q ∷ rest
      → Handles q l.store (handle_reply q l.store)
  Reach-Handles q rest e =
      reply-Handles os l.store l.helper.server.pending_reads q rest
        (subst (Traffic os l.store.machine l.helper.server.pending_reads) e (run-Inv os s w u r))

-- Whatever else waits, a helper process that receives empties the request channel.
module _ {World : Type 0} (os : Os World) where
  one_more :
      (l : Link World) (q : Message) (rest : List Message)
      → requests_of l ≡ q ∷ rest
      → Inv os l
      → (l' : Link World) × (receive_next os q rest l ≡ some l')
        × (requests_of l' ≡ rest)
        × (l'.helper.phase ≡ l.helper.phase)
  unfolding receive_next
  one_more l q rest e v = from (receive os q l.helper.server l.helper.world) (taken os l q rest e v)
    where
      from :
          (o : Option (World × Server × List Message))
          → Moves os l.store.machine.pending q l.helper.server o
          → (l' : Link World) × (received os (with_requests rest l.store) l o ≡ some l')
            × (requests_of l' ≡ rest)
            × (l'.helper.phase ≡ l.helper.phase)
      from none h = absurd h
      from (some (x, v', out)) h = (_, refl, refl, refl)

  drain_from :
      (a l : Link World) (revents : ℕ → Bool) (queue : List Message)
      → requests_of l ≡ queue
      → l.helper.phase ≡ receiving revents
      → Inv os l
      → Work os a l
      → (l' : Link World) × Work os a l'
        × (requests_of l' ≡ [])
        × (l'.helper.pending_request ≡ false)
        × (l'.helper.phase ≡ reading revents l'.helper.server.poll_fds)
  unfolding drained
  drain_from a l revents [] e p v r =
      (record l { helper = drained revents l.helper }, go r (drains revents p e) tt, e, refl, refl)
  drain_from a l revents (q ∷ rest) e p v r =
      let (l1, f, e1, p1) = one_more l q rest e v in
      let st : Step os l l1 = receives revents q rest p e f in
      drain_from a l1 revents rest e1 (p1 ∙ p) (Step-Inv os st v) (go r st tt)

  -- From every state that the two processes reach in which the helper process has begun to receive,
  -- steps of its own lead to a state in which the request channel is empty, the flag is taken back and
  -- the loop over the descriptors is next.
  pub Reach-drained :
      (s : ThreadStore) (w : World) {l : Link World} (revents : ℕ → Bool)
      → IsUnused s.machine
      → Reach os (start s w) l
      → l.helper.phase ≡ receiving revents
      → (l' : Link World) × Work os l l'
        × (requests_of l' ≡ [])
        × (l'.helper.pending_request ≡ false)
        × (l'.helper.phase ≡ reading revents l'.helper.server.poll_fds)
  Reach-drained s w {l} revents u r p =
      drain_from l l revents (requests_of l) refl p (run-Inv os s w u r) stay

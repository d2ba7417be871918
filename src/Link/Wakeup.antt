-- ===== src/Link/Wakeup.antt =====
-- Machine.cpp: the signal that tells the helper process of a request.
use project.Prelude.{
  ℕ, ◌≡◌, refl, sym, ◌∙◌, ◌⊎◌, inl, inr, Bool, true, ◌||◌, Option, none, some, List, [], ◌∷◌, arith,
  Bool-cases,
}
use project.Machine.Data.{Message}
use project.Machine.Server.{PendingRead, Server, Os, receive}
use project.Vm.Data.{ThreadStore}
use project.Link.Defs.{
  Polled, start, IsUnused, Reach, here, next, Link, Step, work, ask, notify, wakes, receives,
  drains, performs, finishes, replies, wake, drained, received, receive_next, round_done, read_next,
  performed, requests_of,
}
use project.Link.Inv.{Inv}
use project.Link.Sound.{no_result, run-Inv, subst_some, handled}

-- The request channel is empty, or the helper process is being told, or has been told.
abbrev pub IsNoticed : {World : Type 0} → Link World → Type 0
IsNoticed l =
    (requests_of l ≡ []) ⊎ ((l.owes_signal || (l.helper.signal || l.helper.pending_request)) ≡ true)

module _ {World : Type 0} (os : Os World) where
  wake-IsNoticed :
      (p : Polled) (l : Link World)
      → IsNoticed l
      → IsNoticed (record l { helper = wake p l.helper })
  unfolding wake
  wake-IsNoticed p l (inl e) = inl e
  wake-IsNoticed p l (inr e) = elim (Bool-cases (l.helper.pending_request || l.helper.signal)) [
    | inl k ↦ rw k (inr (ground arith))
    | inr k ↦ rw k (inr e)
  ]

  received-IsNoticed :
      (l l' : Link World) (t : ThreadStore) (o : Option (World × Server × List Message))
      → received os t l o ≡ some l'
      → (l.owes_signal || (l.helper.signal || l.helper.pending_request)) ≡ true
      → IsNoticed l'
  received-IsNoticed l l' t none k h = absurd (no_result k)
  received-IsNoticed l l' t (some (w, v', out)) k h = subst_some IsNoticed _ l' k (inr h)

  performed-IsNoticed :
      (l l' : Link World) (revents : ℕ → Bool) (fds : List ℕ)
      (o : Option (World × List PendingRead × List Message))
      → performed os revents fds l o ≡ some l'
      → IsNoticed l
      → IsNoticed l'
  performed-IsNoticed l l' revents fds none k h = absurd (no_result k)
  performed-IsNoticed l l' revents fds (some (w, rs, out)) k h = subst_some IsNoticed _ l' k h

  Step-IsNoticed : {l l' : Link World} → Step os l l' → Inv os l → IsNoticed l → IsNoticed l'
  unfolding receive_next drained read_next round_done
  Step-IsNoticed (work s q) v (inl e) = inl (q.requests ∙ e)
  Step-IsNoticed (work s q) v (inr e) = inr e
  Step-IsNoticed (ask t m o small a e) v h = inr refl
  Step-IsNoticed (notify e) v h = inr refl
  Step-IsNoticed {l} (wakes p e) v h = wake-IsNoticed p l h
  Step-IsNoticed (receives revents q rest e k f) v (inl z) = absurd (cons_nil (sym k ∙ z))
    where
      cons_nil : {q : Message} {rest : List Message} → q ∷ rest ≡ [] → ⊥
      cons_nil c = cc
  Step-IsNoticed {l} {l'} (receives revents q rest e k f) v (inr z) =
      received-IsNoticed l l' _ (receive os q l.helper.server l.helper.world) f z
  Step-IsNoticed (drains revents e k) v h = inl k
  Step-IsNoticed {l} {l'} (performs revents fd fds e k) v h =
      performed-IsNoticed l l' revents fds _ k h
  Step-IsNoticed (finishes revents e) v h = h
  Step-IsNoticed {l} (replies q rest s e h) v (inr z) = inr z
  Step-IsNoticed {l} (replies q rest s e h) v (inl z) =
      inl ((handled os l q rest s e h v).requests ∙ z)

  -- From two processes without traffic, as long as the identifiers do not run out: whenever there is a
  -- message on the request channel, the virtual machine is about to send its signal, or the signal
  -- waits to be delivered, or MachinePendingRequest is set. So no request is forgotten.
  pub Reach-IsNoticed :
      (s : ThreadStore) (w : World) {l : Link World}
      → IsUnused s.machine
      → Reach os (start s w) l
      → IsNoticed l
  unfolding start
  Reach-IsNoticed s w u here = inl u.requests
  Reach-IsNoticed s w u (next r st) =
      Step-IsNoticed st (run-Inv os s w u r) (Reach-IsNoticed s w u r)

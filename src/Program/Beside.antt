-- ===== src/Program/Beside.antt =====
-- Machine.cpp: a step of the helper process takes a message at most from the store.
use mathlib.Core.List.{append-nil}
use project.Prelude.{
  ℕ, ◌≡◌, refl, sym, inl, inr, Bool, Option, none, some, List, [], ◌++◌, Bool-cases,
}
use project.Machine.Data.{Message}
use project.Machine.Poll.{take_read, perform_read, perform_pending, fits, bytes_read}
use project.Machine.Server.{PendingRead, Server, Os, receive}
use project.Link.Defs.{
  performed, IsBeside, Link, with_requests, requests_of, received, receive_next, read_next,
}
use project.Link.Defs as Links
use project.Vm.Data.{ThreadStore}
use project.Link.Sound.{no_result, subst_some}

module _ {World : Type 0} (os : Os World) where
  abbrev pub OnlyTakes : Link World → Link World → Type 0
  OnlyTakes l l' = l'.store ≡ with_requests (requests_of l') l.store

  received-OnlyTakes :
      (l l' : Link World) (rest : List Message) (o : Option (World × Server × List Message))
      → received os (with_requests rest l.store) l o ≡ some l'
      → OnlyTakes l l'
  received-OnlyTakes l l' rest none k = absurd (no_result k)
  received-OnlyTakes l l' rest (some (w, v, out)) k = subst_some (OnlyTakes l) _ l' k refl

  performed-OnlyTakes :
      (revents : ℕ → Bool) (fds : List ℕ) (l l' : Link World)
      (o : Option (World × List PendingRead × List Message))
      → performed os revents fds l o ≡ some l'
      → OnlyTakes l l'
  performed-OnlyTakes revents fds l l' none k = absurd (no_result k)
  performed-OnlyTakes revents fds l l' (some (w, rs, out)) k = subst_some (OnlyTakes l) _ l' k refl

  pub IsBeside-OnlyTakes :
      {l l' : Link World} (st : Links.Step os l l') → IsBeside os st → OnlyTakes l l'
  unfolding receive_next read_next
  IsBeside-OnlyTakes (Links.work s q) b = absurd b
  IsBeside-OnlyTakes (Links.ask t m o small a e) b = absurd b
  IsBeside-OnlyTakes (Links.notify e) b = refl
  IsBeside-OnlyTakes (Links.wakes p e) b = refl
  IsBeside-OnlyTakes {l} {l'} (Links.receives revents q rest e k h) b =
      received-OnlyTakes l l' rest (receive os q l.helper.server l.helper.world) h
  IsBeside-OnlyTakes (Links.drains revents e k) b = refl
  IsBeside-OnlyTakes {l} {l'} (Links.performs revents fd fds e k) b =
      performed-OnlyTakes revents fds l l' _ k
  IsBeside-OnlyTakes (Links.finishes revents e) b = refl
  IsBeside-OnlyTakes (Links.replies q rest s e h) b = absurd b

  -- Replies are added at the end.
  abbrev pub Appends : Link World → Link World → Type 0
  Appends l l' = (out : List Message) × (l'.replies ≡ l.replies ++ out)

  unchanged : (rs : List Message) → (out : List Message) × (rs ≡ rs ++ out)
  unchanged rs = ([], sym (append-nil rs))

  received-Appends :
      (l l' : Link World) (s : ThreadStore) (o : Option (World × Server × List Message))
      → received os s l o ≡ some l'
      → Appends l l'
  received-Appends l l' s none k = absurd (no_result k)
  received-Appends l l' s (some (w, v, out)) k = subst_some (Appends l) _ l' k (out, refl)

  read_next-Appends :
      (revents : ℕ → Bool) (fd : ℕ) (fds : List ℕ) (l l' : Link World)
      → read_next os revents fd fds l ≡ some l'
      → Appends l l'
  unfolding read_next
  read_next-Appends revents fd fds l l' k = elim (Bool-cases (revents fd)) [
    | inl e ↦ from (take_read fd l.helper.server.pending_reads) (rw e at k)
    | inr e ↦ subst_some (Appends l) _ l' (rw e at k) (unchanged l.replies)
  ]
    where
      with_data :
          (r : PendingRead) (left : List PendingRead) (w : World) (bytes : Option (List ℕ))
          → performed os revents fds l
              (perform_pending os l.helper.server.buffer_kind r left l.replies (w, bytes))
            ≡ some l'
          → Appends l l'
      with_data r left w bytes q = elim (Bool-cases (fits (bytes_read r.size bytes))) [
        | inl f ↦ subst_some (Appends l) _ l' (rw f at q) (_, refl)
        | inr f ↦ absurd (no_result (rw f at q))
      ]

      from :
          (o : Option (PendingRead × List PendingRead))
          → performed os revents fds l (
              perform_read os l.helper.server.buffer_kind o
                (l.helper.world, l.helper.server.pending_reads, l.replies))
            ≡ some l'
          → Appends l l'
      from none q = subst_some (Appends l) _ l' q (unchanged l.replies)
      from (some (r, left)) q =
          let (w, bytes) = os.read_file r.file_descriptor r.size l.helper.world in
          with_data r left w bytes q

  pub IsBeside-Appends :
      {l l' : Link World} (st : Links.Step os l l') → IsBeside os st → Appends l l'
  unfolding receive_next
  IsBeside-Appends (Links.work s q) b = absurd b
  IsBeside-Appends (Links.ask t m o small a e) b = absurd b
  IsBeside-Appends {l} (Links.notify e) b = unchanged l.replies
  IsBeside-Appends {l} (Links.wakes p e) b = unchanged l.replies
  IsBeside-Appends {l} {l'} (Links.receives revents q rest e k h) b =
      received-Appends l l' _ (receive os q l.helper.server l.helper.world) h
  IsBeside-Appends {l} (Links.drains revents e k) b = unchanged l.replies
  IsBeside-Appends {l} {l'} (Links.performs revents fd fds e k) b =
      read_next-Appends revents fd fds l l' k
  IsBeside-Appends {l} (Links.finishes revents e) b = unchanged l.replies
  IsBeside-Appends (Links.replies q rest s e h) b = absurd b

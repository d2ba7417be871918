-- ===== src/Link/Covered.antt =====
-- Machine.cpp: the helper process polls every descriptor that a read waits for.
use project.Prelude.{
  ℕ, ◌<◌, ◌≡◌, refl, sym, subst, ◌∙◌, ◌⊎◌, inl, inr, Bool, true, false, ◌&&◌, ◌||◌, Option, none,
  some, List, arith, Bool-cases, length, All,
}
use project.Machine.Data.{Message, PendingCallback}
use project.Machine.Server.{PendingRead, Server, Os, add_read, receive, serve, Outcome}
use project.Machine.Poll.{take_read, reads, perform_read, perform_pending, fits, bytes_read}
use project.Vm.Data.{ThreadStore}
use project.Link.Defs.{
  Polled, start, IsUnused, Reach, here, next, Link, Step, work, ask, notify, wakes, receives,
  drains, performs, finishes, replies, wake, drained, received, receive_next, round_done, read_next,
  performed, reading,
}
use project.Link.Count.{wants_reply}
use project.Link.Inv.{IsFormed, last, answer, wait, Inv}
use project.Link.Reads.{Covers, TakesOut, take_read-TakesOut, add_read-Covers, clean_fds-Covers}
use project.Link.Sound.{no_result, run-Inv, subst_some}

abbrev pub IsCovered : {World : Type 0} → Link World → Type 0
IsCovered l = Covers l.helper.server.poll_fds l.helper.server.pending_reads

module _ {World : Type 0} (os : Os World) where
  -- A message leaves the reads covered, and does not end the process unless it asks for that.
  abbrev pub Keeps : Message → Server → Outcome World → Type 0
  Keeps q v none = Unit
  Keeps q v (some (w, v', out)) =
      Covers v'.poll_fds v'.pending_reads × (wants_reply q ≡ true → v'.terminated ≡ v.terminated)

  pub receive-Keeps :
      (p : List (ℕ × PendingCallback)) (q : Message) (v : Server) (w : World)
      → IsFormed os p q
      → Covers v.poll_fds v.pending_reads
      → Keeps q v (receive os q v w)
  unfolding receive
  receive-Keeps p q v w (last e) h = unfold serve in rw e (h, λ k. absurd (false_true k))
    where
      false_true : false ≡ true → ⊥
      false_true k = cc
  receive-Keeps p q v w (answer a) h =
      let (r, e) = a.answers (record v { buffer_kind = q.kind }) w in
      subst (Keeps q v) (sym e) (h, λ k. refl)
  receive-Keeps p q v w (wait a) h =
      let v1 : Server = record v { buffer_kind = q.kind } in
      subst (Keeps q v) (sym (a.waits v1 w)) (
        add_read-Covers
            (record {
              request_id = q.request_id;
              file_descriptor = a.file_descriptor;
              size = a.size;
            })
            v1 h,
        λ k. unfold add_read in refl,
      )

  received-IsCovered :
      (l l' : Link World) (t : ThreadStore) (q : Message) (o : Outcome World)
      → Keeps q l.helper.server o
      → received os t l o ≡ some l'
      → IsCovered l'
  received-IsCovered l l' t q none h k = absurd (no_result k)
  received-IsCovered l l' t q (some (w, v, out)) h k = subst_some IsCovered _ l' k h.0

  wake-IsCovered :
      (p : Polled) (l : Link World)
      → IsCovered l
      → IsCovered (record l { helper = wake p l.helper })
  unfolding wake
  wake-IsCovered p l h = elim (Bool-cases (l.helper.pending_request || l.helper.signal)) [
    | inl e ↦ rw e h
    | inr e ↦
        rw e (elim (Bool-cases (p.timed_out && p.parent_gone)) [ inl g ↦ rw g h | inr g ↦ rw g h ])
  ]

  -- One descriptor of the loop over them: a read is performed if there is an event and one waits.
  pub record IsPerformed (revents : ℕ → Bool) (fd : ℕ) (fds : List ℕ) (l l' : Link World)
      : Type 0 where
    pub phase : l'.helper.phase ≡ reading revents fds
    pub store : l'.store ≡ l.store
    pub owes_signal : l'.owes_signal ≡ l.owes_signal
    pub signal : l'.helper.signal ≡ l.helper.signal
    pub pending_request : l'.helper.pending_request ≡ l.helper.pending_request
    pub terminated : l'.helper.server.terminated ≡ l.helper.server.terminated
    pub covered : IsCovered l → IsCovered l'
    pub fewer :
        (length l'.helper.server.pending_reads < length l.helper.server.pending_reads)
        ⊎ ((l'.helper.server.pending_reads ≡ l.helper.server.pending_reads)
            × (revents fd ≡ true → reads fd l.helper.server.pending_reads ≡ false))

  performed-IsPerformed :
      (revents : ℕ → Bool) (fd : ℕ) (fds : List ℕ) (l : Link World) (w : World)
      (rs : List PendingRead) (out : List Message)
      → ((g : ℕ) → reads g rs ≡ true → reads g l.helper.server.pending_reads ≡ true)
      → (length rs < length l.helper.server.pending_reads)
        ⊎ ((rs ≡ l.helper.server.pending_reads)
            × (revents fd ≡ true → reads fd l.helper.server.pending_reads ≡ false))
      → (l' : Link World) → performed os revents fds l (some (w, rs, out)) ≡ some l'
      → IsPerformed revents fd fds l l'
  performed-IsPerformed revents fd fds l w rs out h f l' e =
      subst_some (IsPerformed revents fd fds l) _ l' e (record {
        phase = refl;
        store = refl;
        owes_signal = refl;
        signal = refl;
        pending_request = refl;
        terminated = refl;
        covered = λ c g k. c g (h g k);
        fewer = f;
      })

  pub read_next-IsPerformed :
      (revents : ℕ → Bool) (fd : ℕ) (fds : List ℕ) (l l' : Link World)
      → read_next os revents fd fds l ≡ some l'
      → IsPerformed revents fd fds l l'
  unfolding read_next
  read_next-IsPerformed revents fd fds l l' e = elim (Bool-cases (revents fd)) [
    | inl b ↦ from (take_read fd rs) (take_read-TakesOut fd rs) (rw b at e)
    | inr b ↦
        performed-IsPerformed revents fd fds l l.helper.world rs l.replies (λ g k. k)
          (inr (refl, λ k. absurd (true_false (sym b ∙ k)))) l' (rw b at e)
  ]
    where
      rs : List PendingRead
      rs = l.helper.server.pending_reads

      true_false : false ≡ true → ⊥
      true_false k = cc

      with_data :
          (r : PendingRead) (left : List PendingRead) (w : World) (bytes : Option (List ℕ))
          → TakesOut fd rs (some (r, left))
          → performed os revents fds l
              (perform_pending os l.helper.server.buffer_kind r left l.replies (w, bytes))
            ≡ some l'
          → IsPerformed revents fd fds l l'
      with_data r left w bytes (n, h) k = elim (Bool-cases (fits (bytes_read r.size bytes))) [
        | inl f ↦
            performed-IsPerformed revents fd fds l w left _ h (inl (omega (arith, n))) l'
              (rw f at k)
        | inr f ↦ absurd (no_result (rw f at k))
      ]

      from :
          (o : Option (PendingRead × List PendingRead))
          → TakesOut fd rs o
          → performed os revents fds l
              (perform_read os l.helper.server.buffer_kind o (l.helper.world, rs, l.replies))
            ≡ some l'
          → IsPerformed revents fd fds l l'
      from none h k =
          performed-IsPerformed revents fd fds l l.helper.world rs l.replies (λ g k. k)
            (inr (refl, λ k. h)) l' k
      from (some (r, left)) h k =
          let (w, bytes) = os.read_file r.file_descriptor r.size l.helper.world in
          with_data r left w bytes h k

  pub Step-IsCovered : {l l' : Link World} → Step os l l' → Inv os l → IsCovered l → IsCovered l'
  unfolding receive_next drained round_done
  Step-IsCovered (work s q) v h = h
  Step-IsCovered (ask t m o small a e) v h = h
  Step-IsCovered (notify e) v h = h
  Step-IsCovered {l} (wakes p e) v h = wake-IsCovered p l h
  Step-IsCovered {l} {l'} (receives revents q rest e k r) v h =
      received-IsCovered l l' _ q (receive os q l.helper.server l.helper.world)
        (receive-Keeps l.store.machine.pending q l.helper.server l.helper.world
          (subst (All (IsFormed os l.store.machine.pending)) k v.formed).0 h)
        r
  Step-IsCovered (drains revents e k) v h = h
  Step-IsCovered {l} {l'} (performs revents fd fds e k) v h =
      (read_next-IsPerformed revents fd fds l l' k).covered h
  Step-IsCovered {l} (finishes revents e) v h =
      clean_fds-Covers l.helper.server.pending_reads l.helper.server.poll_fds h
  Step-IsCovered (replies q rest s e r) v h = h

  -- From two processes without traffic, as long as the identifiers do not run out: every descriptor that a
  -- read waits for is polled.
  pub Reach-IsCovered :
      (s : ThreadStore) (w : World) {l : Link World}
      → IsUnused s.machine
      → Reach os (start s w) l
      → IsCovered l
  unfolding start
  Reach-IsCovered s w u here fd k = absurd (false_true k)
    where
      false_true : false ≡ true → ⊥
      false_true e = cc
  Reach-IsCovered s w u (next r st) fd k =
      Step-IsCovered st (run-Inv os s w u r) (Reach-IsCovered s w u r) fd k

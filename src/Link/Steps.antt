-- ===== src/Link/Steps.antt =====
-- Machine.cpp: every step of the two processes keeps the traffic balanced.
use project.Prelude.{
  ℕ, ◌+◌, ◌<◌, ◌≡◌, refl, sym, ap, subst, ◌∙◌, ◌≢◌, inl, inr, true, false, ◌&&◌, Option, none, some,
  List, [], ◌∷◌, ◌++◌, arith, ◌==◌, if◌then◌else◌, Bool-cases, eq_of_==, length, All, All-append,
  All-mono,
}
use project.Machine.Data.{PendingCallback, Message, Machine, find, erase}
use project.Machine.Server.{PendingRead, Server, Os}
use project.Machine.Poll.{
  take_read, perform_read, perform_pending, bytes_read, fits, fits-bytes_read, result_payload,
  read_reply,
}
use project.Machine.Codec.{get_int, set_int, is_negative, get_int-set_int}
use project.Machine.RoundTrip.{drop-set_int}
use mathlib.Core.List.{append-nil}
use project.Link.Count.{
  counts, wants_reply, asked, waits, answered_by, owed_to, owed, asked-append, answered_by-append,
  find-insert_lem, TakenRead, take_read-TakenRead,
}
use project.Link.Inv.{
  HasDestination, HasDestination-insert, HasDestination-erase, Readable-set_int, IsFormed, last,
  answer, wait, IsReply, IsLanding, HasData, Traffic,
}
use project.Link.Requests.{IsAsked}
use project.Link.Moves.{IsMoved}

-- The result of a read that fails.
failed : get_int (set_int 4294967295) ≡ some 4294967295
unfolding get_int set_int
failed = refl

negative : is_negative 4294967295 ≡ false → ⊥
negative q = cc

Readable-result_payload : (o : Option (List ℕ)) → get_int (result_payload o) ≢ none
Readable-result_payload none =
    subst (λ x. get_int x ≢ none) (append-nil (set_int 4294967295)) (Readable-set_int 4294967295 [])
Readable-result_payload (some bytes) = Readable-set_int (length bytes) bytes

HasData-read_reply :
    (kind : ℕ) (r : PendingRead) (o : Option (List ℕ))
    → fits o ≡ true
    → HasData (read_reply kind r o)
HasData-read_reply kind r none h n e k =
    absurd (negative (subst (λ x. is_negative x ≡ false) (some_same (sym e ∙ failed)) k))
  where
    some_same : {x y : ℕ} → some x ≡ some y → x ≡ y
    some_same q = cc
HasData-read_reply kind r (some bytes) h n e k =
    let small : length bytes < 4294967296 = ground (arith, h) in
    let same : n ≡ length bytes = some_same (sym e ∙ get_int-set_int (length bytes) bytes small) in
    rw (drop-set_int (length bytes) bytes) (omega (arith, same))
  where
    some_same : {x y : ℕ} → some x ≡ some y → x ≡ y
    some_same q = cc

module _ {World : Type 0} (os : Os World) (p p' : List (ℕ × PendingCallback)) where
  IsFormed-mono :
      (q : Message)
      → (HasDestination q.request_id p → HasDestination q.request_id p')
      → IsFormed os p q
      → IsFormed os p' q
  IsFormed-mono q f (last e) = last e
  IsFormed-mono q f (answer a) = answer a
  IsFormed-mono q f (wait a) = wait (record {
    file_descriptor = a.file_descriptor;
    size = a.size;
    wanted = a.wanted;
    lands = f a.lands;
    fits = a.fits;
    waits = a.waits;
  })

module _ {World : Type 0} (os : Os World) (m m' : Machine) (reads : List PendingRead)
    (replies : List Message) where
  pub quiet-Traffic :
      m'.pending ≡ m.pending
      → m'.requests ≡ m.requests
      → m'.request_id ≡ m.request_id
      → m'.initialized ≡ m.initialized
      → Traffic os m reads replies
      → Traffic os m' reads replies
  quiet-Traffic a b c d t = record {
    ready = d ∙ t.ready;
    balance = λ id. rw (a, b) (t.balance id);
    fresh = λ id h. rw a (t.fresh id (subst (λ k. k < id) c h));
    formed = rw (a, b) t.formed;
    reads_land = rw a t.reads_land;
    replies_fit = rw a t.replies_fit;
  }

  pub asked-Traffic : IsAsked os m m' → Traffic os m reads replies → Traffic os m' reads replies
  asked-Traffic a t = record {
    ready = a.initialized ∙ t.ready;
    balance = balance;
    fresh = fresh;
    formed = rw a.queued (
        All-append (IsFormed os m'.pending) m.requests (a.message ∷ [])
          (All-mono (IsFormed os m.pending) (IsFormed os m'.pending)
            (λ q. IsFormed-mono os m.pending m'.pending q (kept q.request_id)) m.requests t.formed)
          (a.formed, tt));
    reads_land =
        All-mono (IsLanding m.pending) (IsLanding m'.pending) (λ r h. (kept r.request_id h.0, h.1))
          reads t.reads_land;
    replies_fit =
        All-mono (IsReply m.pending) (IsReply m'.pending)
          (λ q h. (h.0, λ e. (kept q.request_id (h.1 e).0, (h.1 e).1))) replies t.replies_fit;
  }
    where
      k : ℕ
      k = m.request_id + 1

      unused : find k m.pending ≡ none
      unused = t.fresh k (omega arith)

      kept : (j : ℕ) → HasDestination j m.pending → HasDestination j m'.pending
      kept j h = rw a.pending (HasDestination-insert j k a.entry m.pending unused h)

      found : (id : ℕ) → find id m'.pending ≡ (if k == id then some a.entry else find id m.pending)
      found id = ap (find id) a.pending ∙ find-insert_lem id k a.entry m.pending

      now_asked :
          (id : ℕ)
          → asked id m'.requests ≡ asked id m.requests + counts (k == id && wants_reply a.message)
      now_asked id =
          ap (asked id) a.queued
          ∙ asked-append id m.requests (a.message ∷ [])
          ∙ (rw a.numbered (omega arith))

      balance :
          (id : ℕ)
          → asked id m'.requests + waits id reads + answered_by id replies ≡ owed id m'.pending
      balance id = elim (Bool-cases (k == id)) [
        | inl e ↦
            let o : owed id m.pending ≡ 0 =
              ap owed_to (ap (λ i. find i m.pending) (sym (eq_of_== k id e)) ∙ unused) in
            let n : owed id m'.pending ≡ counts (wants_reply a.message) =
              ap owed_to (found id) ∙ (rw e a.expects) in
            let z : asked id m'.requests ≡ asked id m.requests + counts (wants_reply a.message) =
              now_asked id ∙ (rw e refl) in
            omega (arith, t.balance id, o, n, z)
        | inr e ↦
            let n : owed id m'.pending ≡ owed id m.pending = ap owed_to (found id) ∙ (rw e refl) in
            let z : asked id m'.requests ≡ asked id m.requests + 0 = now_asked id ∙ (rw e refl) in
            omega (arith, t.balance id, n, z)
      ]

      fresh : (id : ℕ) → m'.request_id < id → find id m'.pending ≡ none
      fresh id h = found id ∙ ground (arith, a.counter, t.fresh id (omega (arith, a.counter, h)))

module _ {World : Type 0} (os : Os World) (m : Machine) (v : Server) (replies : List Message)
    (t : Traffic os m v.pending_reads replies) where
  pub moved-Traffic :
      (q : Message) (rest : List Message) (v' : Server) (out : List Message)
      → m.requests ≡ q ∷ rest
      → IsMoved os m.pending q v v' out
      → Traffic os (record m { requests = rest }) v'.pending_reads (replies ++ out)
  moved-Traffic q rest v' out e moves = record {
    ready = t.ready;
    balance = λ id.
        omega
          (arith, t.balance id, ap (asked id) e, moves.moved id, answered_by-append id replies out);
    fresh = t.fresh;
    formed = (subst (All (IsFormed os m.pending)) e t.formed).1;
    reads_land = moves.reads_land;
    replies_fit = All-append (IsReply m.pending) replies out t.replies_fit moves.replies_fit;
  }

  -- A read that waits is performed, and the buffer is not overrun.
  abbrev pub Balanced : Option (World × List PendingRead × List Message) → Type 0
  Balanced none = ⊥
  Balanced (some (w', reads, out)) = Traffic os m reads out

  pub performed-Traffic :
      (fd kind : ℕ) (w : World)
      → Balanced (perform_read os kind (take_read fd v.pending_reads) (w, v.pending_reads, replies))
  performed-Traffic fd kind w =
      from (take_read fd v.pending_reads)
        (take_read-TakenRead (IsLanding m.pending) fd v.pending_reads t.reads_land)
    where
      with_data :
          (r : PendingRead) (left : List PendingRead) (w' : World) (o : Option (List ℕ))
          → TakenRead (IsLanding m.pending) v.pending_reads (some (r, left))
          → Balanced (perform_pending os kind r left replies (w', o))
      with_data r left w' o (same, lands, rest) = rw (fits-bytes_read r.size o lands.1) (record {
        ready = t.ready;
        balance = λ id. omega (
          arith,
          t.balance id,
          same id,
          answered_by-append id replies (read_reply kind r (bytes_read r.size o) ∷ []),
        );
        fresh = t.fresh;
        formed = t.formed;
        reads_land = rest;
        replies_fit =
            All-append (IsReply m.pending) replies (read_reply kind r (bytes_read r.size o) ∷ [])
              t.replies_fit
              (
                (
                  Readable-result_payload (bytes_read r.size o),
                  λ e. (
                    lands.0,
                    HasData-read_reply kind r (bytes_read r.size o)
                        (fits-bytes_read r.size o lands.1),
                  ),
                ),
                tt,
              );
      })

      from :
          (o : Option (PendingRead × List PendingRead))
          → TakenRead (IsLanding m.pending) v.pending_reads o
          → Balanced (perform_read os kind o (w, v.pending_reads, replies))
      from none h = t
      from (some (r, left)) h =
          let (w', o) = os.read_file r.file_descriptor r.size w in with_data r left w' o h

-- An identifier that is not on the way is not that of any item on the way.
module _ (k : ℕ) (p : List (ℕ × PendingCallback)) where
  pub reads-erase :
      (rs : List PendingRead)
      → waits k rs ≡ 0
      → All (IsLanding p) rs
      → All (IsLanding (erase k p)) rs
  reads-erase [] e h = tt
  reads-erase (r ∷ rs) e h = (
    (HasDestination-erase r.request_id k p (ground (arith, e)) h.0.0, h.0.1),
    reads-erase rs (omega (arith, e)) h.1,
  )

  pub replies-erase :
      (qs : List Message) → answered_by k qs ≡ 0 → All (IsReply p) qs → All (IsReply (erase k p)) qs
  replies-erase [] e h = tt
  replies-erase (q ∷ qs) e h = (
    (
      h.0.0,
      λ read. (
        HasDestination-erase q.request_id k p (ground (arith, e)) (h.0.1 read).0,
        (h.0.1 read).1,
      ),
    ),
    replies-erase qs (omega (arith, e)) h.1,
  )

  pub requests-erase :
      {World : Type 0} (os : Os World) (qs : List Message)
      → asked k qs ≡ 0
      → All (IsFormed os p) qs
      → All (IsFormed os (erase k p)) qs
  requests-erase os [] e h = tt
  requests-erase os (q ∷ qs) e h = (first h.0, requests-erase os qs (omega (arith, e)) h.1)
    where
      first : IsFormed os p q → IsFormed os (erase k p) q
      first (last c) = last c
      first (answer a) = answer a
      first (wait a) =
          IsFormed-mono os p (erase k p) q
            (HasDestination-erase q.request_id k p (ground (arith, e, a.wanted))) (wait a)

-- ===== src/Link/Inv.antt =====
-- Machine.cpp: the traffic between the two processes, and its invariant.
use project.Prelude.{
  ℕ, ◌+◌, ◌<◌, ◌≡◌, sym, ap, subst, ◌∙◌, ◌≢◌, inl, inr, true, false, Option, none, some, List, [],
  ◌++◌, ◌==◌, Bool-cases, ◌≤◌, false, length, drop, eq_of_==, All,
}
use project.Machine.Data.{
  request_terminate, request_read, PendingCallback, Message, Machine, payload_capacity, find,
  insert, erase,
}
use project.Machine.Codec.{get_int, set_int, is_negative}
use project.Machine.Server.{PendingRead, Server, Os, answered, serve, add_read}
use project.Link.Defs.{Link}
use project.Link.Count.{
  wants_reply, asked, waits, answered_by, owed, find-insert_lem, find-erase_lem,
}

-- A caller that gave an address for data.
abbrev pub Lands : Option PendingCallback → Type 0
Lands none = ⊥
Lands (some c) = c.destination ≢ none

abbrev pub HasDestination : ℕ → List (ℕ × PendingCallback) → Type 0
HasDestination id pending = Lands (find id pending)

abbrev pub IsReadable : Message → Type 0
IsReadable q = get_int q.payload ≢ none

-- All the data that the result promises follow it.
abbrev pub HasData : Message → Type 0
HasData q =
    (n : ℕ) → get_int q.payload ≡ some n → is_negative n ≡ false → n ≤ length (drop 4 q.payload)

-- A reply has a result, and one with data has an address for them.
abbrev pub IsReply : List (ℕ × PendingCallback) → Message → Type 0
IsReply pending q =
    IsReadable q
    × ((q.kind == request_read) ≡ true → HasDestination q.request_id pending × HasData q)

-- A read that waits, of a size for which the buffer has room.
abbrev pub IsLanding : List (ℕ × PendingCallback) → PendingRead → Type 0
IsLanding pending r = HasDestination r.request_id pending × (r.size + 4 ≤ payload_capacity)

module _ {World : Type 0} (os : Os World) where
  -- The helper process answers the request at once.
  pub record IsAnswered (q : Message) : Type 0 where
    pub not_read : (q.kind == request_read) ≡ false
    pub wanted : wants_reply q ≡ true
    pub answers :
        (v : Server) (w : World) → (r : World × ℕ) × (serve os q v w ≡ some (answered os q v r))

  -- It puts the request on the list of reads.
  pub record IsWaiting (pending : List (ℕ × PendingCallback)) (q : Message) : Type 0 where
    pub file_descriptor : ℕ
    pub size : ℕ
    pub wanted : wants_reply q ≡ true
    pub lands : HasDestination q.request_id pending
    pub fits : size + 4 ≤ payload_capacity
    pub waits :
        (v : Server) (w : World)
        → serve os q v w
          ≡ some (
            w,
            add_read
                (record {
                  request_id = q.request_id;
                  file_descriptor = file_descriptor;
                  size = size;
                })
                v,
            [],
          )

  pub data IsFormed (pending : List (ℕ × PendingCallback)) (q : Message) : Type 0 where
    last : q.kind ≡ request_terminate → IsFormed pending q
    answer : IsAnswered q → IsFormed pending q
    wait : IsWaiting pending q → IsFormed pending q

  -- Every identifier stands once on the way if a caller is registered under it, and else not at all.
  pub record Traffic (m : Machine) (reads : List PendingRead) (replies : List Message)
      : Type 0 where
    pub ready : m.initialized ≡ true
    pub balance :
        (id : ℕ) → asked id m.requests + waits id reads + answered_by id replies ≡ owed id m.pending
    pub fresh : (id : ℕ) → m.request_id < id → find id m.pending ≡ none
    pub formed : All (IsFormed m.pending) m.requests
    pub reads_land : All (IsLanding m.pending) reads
    pub replies_fit : All (IsReply m.pending) replies

  abbrev pub Inv : Link World → Type 0
  Inv l = Traffic l.store.machine l.helper.server.pending_reads l.replies

pub Readable-set_int : (n : ℕ) (rest : List ℕ) → get_int (set_int n ++ rest) ≢ none
unfolding get_int set_int
Readable-set_int n rest e = cc

-- A caller that is registered under a new identifier changes nothing for the others.
pub HasDestination-insert :
    (j k : ℕ) (c : PendingCallback) (p : List (ℕ × PendingCallback))
    → find k p ≡ none
    → HasDestination j p
    → HasDestination j (insert k c p)
HasDestination-insert j k c p e h = rw (find-insert_lem j k c p) (elim (Bool-cases (k == j)) [
  | inl q ↦ absurd (subst Lands (ap (λ i. find i p) (sym (eq_of_== k j q)) ∙ e) h)
  | inr q ↦ rw q h
])

pub HasDestination-erase :
    (j k : ℕ) (p : List (ℕ × PendingCallback))
    → (k == j) ≡ false
    → HasDestination j p
    → HasDestination j (erase k p)
HasDestination-erase j k p e h = rw (find-erase_lem j k p) (rw e h)

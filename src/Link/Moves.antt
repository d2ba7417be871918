-- ===== src/Link/Moves.antt =====
-- Machine.cpp: what the helper process does with a request, and what the reply handler does with a
-- reply, seen from the traffic.
use mathlib.Core.List.{append-nil}
use project.Prelude.{
  ℕ, ◌+◌, ◌≡◌, refl, sym, ap, subst, ◌∙◌, ◌≢◌, inl, inr, true, false, not, ◌&&◌, Option, none, some,
  List, [], ◌∷◌, arith, ltb, leb, length, drop, ◌≤◌, false, ◌==◌, Bool-cases, All, All-append,
}
use project.Machine.Data.{
  request_read, machine_file_io_callback, PendingCallback, Message, Machine, find, erase,
}
use project.Machine.Codec.{get_int, set_int, is_negative}
use project.Machine.Server.{Server, Os, serve, add_read, receive, Outcome}
use project.Vm.Data.{ThreadStore}
use project.Vm.Tcb.{set_file_io_result, set_is_waiting_on_io}
use project.Vm.Timer
use project.Vm.Reply.{copy_data, finish_reply, handle_reply}
use project.Link.Count.{caller_of, counts, wants_reply, waits, answered_by, waits-append}
use project.Link.Inv.{IsLanding, Readable-set_int, IsFormed, last, answer, wait, IsReply}

module _ {World : Type 0} (os : Os World) (p : List (ℕ × PendingCallback)) where
  -- One request has become a reply, a read that waits, or nothing if it wants no reply.
  pub record IsMoved (q : Message) (v v' : Server) (out : List Message) : Type 0 where
    pub moved :
        (id : ℕ)
        → waits id v'.pending_reads + answered_by id out
          ≡ waits id v.pending_reads + counts (q.request_id == id && wants_reply q)
    pub reads_land : All (IsLanding p) v'.pending_reads
    pub replies_fit : All (IsReply p) out

  abbrev pub Moves : Message → Server → Outcome World → Type 0
  Moves q v none = ⊥
  Moves q v (some (w, v', out)) = IsMoved q v v' out

  pub receive-Moves :
      (q : Message) (v : Server) (w : World)
      → IsFormed os p q
      → All (IsLanding p) v.pending_reads
      → Moves q v (receive os q v w)
  unfolding receive add_read
  receive-Moves q v w (last e) h =
      unfold serve in rw e (record { moved = λ id. ground arith; reads_land = h; replies_fit = tt })
  receive-Moves q v w (answer a) h =
      let v1 : Server = record v { buffer_kind = q.kind } in
      let (r, e) = a.answers v1 w in
      subst (Moves q v) (sym e) (record {
        moved = λ id. rw a.wanted (ground arith);
        reads_land = h;
        replies_fit = ((Readable-reply r.1, λ k. cc), tt);
      })
    where
      Readable-reply : (n : ℕ) → get_int (set_int n) ≢ none
      Readable-reply n = rw (append-nil (set_int n)) at (Readable-set_int n [])
  receive-Moves q v w (wait a) h =
      let v1 : Server = record v { buffer_kind = q.kind } in
      subst (Moves q v) (sym (a.waits v1 w)) (record {
        moved = λ id. rw (a.wanted) (
            ground (
              arith,
              waits-append id v.pending_reads (
                  record {
                    request_id = q.request_id;
                    file_descriptor = a.file_descriptor;
                    size = a.size;
                  }
                  ∷ []),
            ));
        reads_land = All-append (IsLanding p) v.pending_reads _ h ((a.lands, a.fits), tt);
        replies_fit = tt;
      })

-- The reply of a caller that is registered is handled, its entry is gone, and its thread does not wait
-- for it.
pub record IsHandled (q : Message) (s s' : ThreadStore) : Type 0 where
  pub erased : s'.machine.pending ≡ erase q.request_id s.machine.pending
  pub requests : s'.machine.requests ≡ s.machine.requests
  pub request_id : s'.machine.request_id ≡ s.machine.request_id
  pub initialized : s'.machine.initialized ≡ s.machine.initialized
  pub waiting :
      (i : ℕ)
      → (s'.tcb i).waiting_on_io ≡ true
      → ((s.tcb i).waiting_on_io ≡ true)
        × (caller_of (find q.request_id s.machine.pending) ≢ some i)

abbrev pub Handles : Message → ThreadStore → Option ThreadStore → Type 0
Handles q s none = ⊥
Handles q s (some s') = IsHandled q s s'

-- The machine after the copy of the data, which changes the memory alone.
abbrev Copied : Machine → Option Machine → Type 0
Copied m none = ⊥
Copied m (some m') =
    (m'.pending ≡ m.pending)
    × (m'.requests ≡ m.requests)
    × (m'.request_id ≡ m.request_id)
    × (m'.initialized ≡ m.initialized)

-- The data that a result promises follow it.
abbrev pub HasRest : Message → ℕ → Type 0
HasRest q n = is_negative n ≡ false → n ≤ length (drop 4 q.payload)

copy_data-Copied :
    (q : Message) (result : ℕ) (d : Option ℕ) (m : Machine)
    → ((q.kind == request_read) ≡ true → (d ≢ none) × HasRest q result)
    → Copied m (copy_data q result d m)
unfolding copy_data
copy_data-Copied q result none m h = elim (Bool-cases (q.kind == request_read)) [
  | inl e ↦ absurd ((h e).0 refl)
  | inr e ↦ rw e (refl, refl, refl, refl)
]
copy_data-Copied q result (some a) m h =
    elim (Bool-cases (q.kind == request_read && (ltb 0 result && not (is_negative result)))) [
      | inl e ↦
          let long : leb result (length (drop 4 q.payload)) ≡ true =
            ground (arith, e, (h (ground (arith, e))).1 (ground (arith, e))) in
          rw (e, long) (refl, refl, refl, refl)
      | inr e ↦ rw e (refl, refl, refl, refl)
    ]

-- A thread that waits behind the callback waited before, and the reply was for another.
still_waiting :
    (t n : ℕ) (s : ThreadStore) (i : ℕ)
    → ((Timer.machine_file_io_callback t n s).tcb i).waiting_on_io ≡ true
    → ((s.tcb i).waiting_on_io ≡ true) × (t ≢ i)
unfolding Timer.machine_file_io_callback set_file_io_result set_is_waiting_on_io
still_waiting t n s i w = elim (Bool-cases (t == i)) [
  | inl e ↦ absurd (true_false (rw e at w))
  | inr e ↦ (rw e at w, λ p. ground (arith, e, p))
]
  where
    true_false : false ≡ true → ⊥
    true_false h = cc

pub handle_reply-Handles :
    (q : Message) (s : ThreadStore) (n : ℕ) (t : ℕ) (d : Option ℕ)
    → find q.request_id s.machine.pending
      ≡ some
          (record { callback = some machine_file_io_callback; calldata = some t; destination = d })
    → get_int q.payload ≡ some n
    → ((q.kind == request_read) ≡ true → (d ≢ none) × HasRest q n)
    → Handles q s (handle_reply q s)
unfolding handle_reply Timer.machine_file_io_callback set_file_io_result set_is_waiting_on_io
handle_reply-Handles q s n t d e g h =
    rw (e, g) (finished (copy_data q n d m) (copy_data-Copied q n d m h))
  where
    m : Machine
    m = record s.machine { pending = erase q.request_id s.machine.pending }

    same : {x y : ℕ} → some x ≡ some y → x ≡ y
    same z = cc

    named : (i : ℕ) → caller_of (find q.request_id s.machine.pending) ≡ some i → t ≡ i
    named i x = same (sym (ap caller_of e) ∙ x)

    finished :
        (o : Option Machine)
        → Copied m o
        → Handles q s (
            finish_reply
              (record {
                callback = some machine_file_io_callback;
                calldata = some t;
                destination = d;
              })
              n
              s
              o)
    finished none c = c
    finished (some m') (a, b, c, k) = record {
      erased = a;
      requests = b;
      request_id = c;
      initialized = k;
      waiting = λ i w. let (old, other) = still_waiting t n s i w in (old, λ x. other (named i x));
    }

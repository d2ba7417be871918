-- ===== src/Link/Requests.antt =====
-- Machine.cpp: what a call of the virtual machine adds to the traffic.
use project.Prelude.{
  ℕ, ◌+◌, ◌%◌, ◌<◌, ◌≡◌, refl, sym, ap, subst, ◌∙◌, true, false, Option, none, some, [], ◌∷◌, ◌++◌,
  arith, ◌==◌,
}
use project.Machine.Data.{
  request_open, request_read, request_write, request_seek, request_close, request_terminate,
  FileCallback, machine_file_io_callback, PendingCallback, Message, Machine, insert, find,
}
use project.Machine.Signals.{suspend_signals, resume_signals}
use project.Machine.Requests.{add_request, send, read_bytes}
use project.Machine.Requests
use project.Machine.Server.{Os, answered}
use project.Machine.RoundTrip.{
  IsSent, caller, Served, file_open-Served, file_read-Served, file_write-Served, file_seek-Served,
  file_close-Served,
}
use project.Link.Defs.{IsFile, Asks, opens, reads, writes, seeks, closes, terminates}
use project.Link.Count.{caller_of, counts, wants_reply, owed_to}
use project.Link.Inv.{Lands, IsFormed, last, answer, wait}

module _ {World : Type 0} (os : Os World) where
  -- One message more, with a caller under the next identifier if it wants a reply.
  pub record IsAsked (m m' : Machine) : Type 0 where
    pub message : Message
    pub entry : PendingCallback
    pub queued : m'.requests ≡ m.requests ++ message ∷ []
    pub pending : m'.pending ≡ insert (m.request_id + 1) entry m.pending
    pub counter : m'.request_id ≡ m.request_id + 1
    pub numbered : message.request_id ≡ m.request_id + 1
    pub expects : owed_to (some entry) ≡ counts (wants_reply message)
    pub formed : IsFormed os m'.pending message
    pub initialized : m'.initialized ≡ m.initialized

  module _ (t : ℕ) (m : Machine) (ready : m.initialized ≡ true)
      (small : m.request_id < 4294967295) where
    cb : Option FileCallback
    cb = some machine_file_io_callback

    of_sent :
        (kind : ℕ) (dest : Option ℕ) (m' : Machine) (q : Message)
        → IsSent kind m m' (caller cb (some t) m dest) q
        → (kind == request_terminate) ≡ false
        → IsFormed os m'.pending q
        → IsAsked m m'
    unfolding cb
    of_sent kind dest m' q s k f =
        let id : q.request_id ≡ m.request_id + 1 = s.numbered ∙ (omega (arith, small)) in
        record {
          message = q;
          entry = caller cb (some t) m dest;
          queued = s.queued;
          pending = s.pending ∙ ap (λ i. insert i (caller cb (some t) m dest) m.pending) id;
          counter = s.counter ∙ id;
          numbered = id;
          expects = rw (s.asks, k);
          formed = f;
          initialized = s.initialized;
        }

    of_answered :
        (kind : ℕ) (act : World → World × ℕ) (r : Option Machine) (m' : Machine)
        → (kind == request_read) ≡ false
        → (kind == request_terminate) ≡ false
        → Served cb (some t) m os kind none r (λ q v w. some (answered os q v (act w)))
        → r ≡ some m'
        → IsAsked m m'
    of_answered kind act r m' k l (m1, q, e, s, serves) e' = subst (IsAsked m) same (
        of_sent kind none m1 q s l (
          answer (record {
            not_read = rw s.asks k;
            wanted = rw (s.asks, l);
            answers = λ v w. (act w, serves v w);
          })))
      where
        same : m1 ≡ m'
        same = cc

    joined :
        {r : Option Machine} (m1 m' : Machine)
        → r ≡ some m1
        → r ≡ some m'
        → IsAsked m m1
        → IsAsked m m'
    joined m1 m' e e' a = subst (IsAsked m) (cc) a

    next_id : (m.request_id + 1) % 4294967296 ≡ m.request_id + 1
    next_id = omega (arith, small)

    terminate-IsAsked : IsAsked m (Requests.terminate m)
    unfolding Requests.terminate send suspend_signals add_request resume_signals
    terminate-IsAsked = rw ready (record {
      message = record {
        kind = request_terminate;
        request_id = (m.request_id + 1) % 4294967296;
        payload = [];
      };
      entry = record { callback = none; calldata = none; destination = none };
      queued = refl;
      pending =
          ap
            (λ i.
              insert i (record { callback = none; calldata = none; destination = none }) m.pending)
            next_id;
      counter = next_id;
      numbered = next_id;
      expects = refl;
      formed = last refl;
      initialized = refl;
    })

    pub Asks-IsAsked : {r : Option Machine} (m' : Machine) → Asks t m r → r ≡ some m' → IsAsked m m'
    unfolding cb
    Asks-IsAsked m' (opens name flags mode hn hf hm hl) e =
        of_answered request_open (os.open_file name flags mode) _ m' refl refl
          (file_open-Served cb (some t) m os ready name flags mode hn hf hm hl) e
    Asks-IsAsked m' (reads fd address size hf hs) e =
        let (m1, q, e1, s, serves) =
          file_read-Served cb (some t) m os ready fd address size hf (omega (arith, hs)) in
        joined m1 m' e1 e (
          of_sent request_read (some address) m1 q s refl (
            wait (record {
              file_descriptor = fd;
              size = size;
              wanted = rw s.asks;
              lands = subst Lands (sym s.registered) (λ h. cc);
              fits = hs;
              waits = serves;
            })))
    Asks-IsAsked m' (writes fd address size hf hs) e =
        of_answered request_write (os.write_file fd (read_bytes size address m.memory)) _ m' refl
          refl (file_write-Served cb (some t) m os ready fd address size hf hs) e
    Asks-IsAsked m' (seeks fd offset whence hf ho hw) e =
        of_answered request_seek (os.seek_file fd offset whence) _ m' refl refl
          (file_seek-Served cb (some t) m os ready fd offset whence hf ho hw) e
    Asks-IsAsked m' (closes fd hf) e =
        of_answered request_close (os.close_file fd) _ m' refl refl
          (file_close-Served cb (some t) m os ready fd hf) e
    Asks-IsAsked m' terminates e = subst (IsAsked m) (cc) terminate-IsAsked

    -- The calling thread is registered for the reply.
    abbrev pub Named : Machine → Type 0
    Named m' = (id : ℕ) × (caller_of (find id m'.pending) ≡ some t)

    of_registered :
        {r : Option Machine} (kind : ℕ) (dest : Option ℕ) (m1 m' : Machine) (q : Message)
        → IsSent kind m m1 (caller cb (some t) m dest) q
        → r ≡ some m1
        → r ≡ some m'
        → Named m'
    unfolding cb
    of_registered kind dest m1 m' q s e e' = (
      q.request_id,
      ap (λ x. caller_of (find q.request_id x.pending)) (same (sym e' ∙ e))
          ∙ ap caller_of s.registered,
    )
      where
        same : {x y : Machine} → some x ≡ some y → x ≡ y
        same k = cc

    pub Asks-Named :
        {r : Option Machine} (m' : Machine) (a : Asks t m r) → IsFile a → r ≡ some m' → Named m'
    unfolding cb
    Asks-Named m' (opens name flags mode hn hf hm hl) i e =
        let (m1, q, e1, s, k) =
          file_open-Served cb (some t) m os ready name flags mode hn hf hm hl in
        of_registered request_open none m1 m' q s e1 e
    Asks-Named m' (reads fd address size hf hs) i e =
        let (m1, q, e1, s, k) =
          file_read-Served cb (some t) m os ready fd address size hf (omega (arith, hs)) in
        of_registered request_read (some address) m1 m' q s e1 e
    Asks-Named m' (writes fd address size hf hs) i e =
        let (m1, q, e1, s, k) =
          file_write-Served cb (some t) m os ready fd address size hf (omega (arith, hs)) in
        of_registered request_write none m1 m' q s e1 e
    Asks-Named m' (seeks fd offset whence hf ho hw) i e =
        let (m1, q, e1, s, k) = file_seek-Served cb (some t) m os ready fd offset whence hf ho hw in
        of_registered request_seek none m1 m' q s e1 e
    Asks-Named m' (closes fd hf) i e =
        let (m1, q, e1, s, k) = file_close-Served cb (some t) m os ready fd hf in
        of_registered request_close none m1 m' q s e1 e
    Asks-Named m' terminates i e = absurd i

-- ===== src/Machine/RoundTrip.antt =====
-- Machine.cpp: the requests of the virtual machine against what the helper process does.
use mathlib.Core.List.{append-nil}
use project.Prelude.{
  ℕ, zero, suc, ◌+◌, ◌%◌, ◌≤◌, ◌<◌, ◌≡◌, refl, ap, ◌≢◌, inl, inr, true, Option, none, some, List,
  [], ◌∷◌, ◌++◌, arith, leb, ◌==◌, Bool-cases, length, take, drop, All, ==_refl,
}
use project.Machine.Data.{
  request_open, request_read, request_write, request_seek, request_close, payload_capacity,
  FileCallback, PendingCallback, Message, Machine, find, insert,
}
use project.Machine.Codec.{get_int, set_int, set_int_from, get_int-set_int}
use project.Machine.Signals.{suspend_signals, resume_signals}
use project.Machine.Requests.{
  add_request, send, read_bytes, open_payload, read_payload, write_payload, seek_payload, file_open,
  file_read, file_write, file_seek, file_close,
}
use project.Machine.Server.{
  Server, Os, c_string, after_string, add_read, Outcome, answered, serve, serve_open, serve_read,
  serve_write, serve_seek, serve_close,
}

pub drop-set_int : (x : ℕ) (rest : List ℕ) → drop 4 (set_int x ++ rest) ≡ rest
unfolding set_int set_int_from
drop-set_int x rest = refl

drop-set_int_two : (x y : ℕ) (rest : List ℕ) → drop 8 (set_int x ++ (set_int y ++ rest)) ≡ rest
unfolding set_int set_int_from
drop-set_int_two x y rest = refl

get_int-end : (x : ℕ) → x < 4294967296 → get_int (set_int x) ≡ some x
get_int-end x h = rw (append-nil (set_int x)) at (get_int-set_int x [] h)

c_string-append : (name rest : List ℕ) → All (λ b. b ≢ 0) name → c_string (name ++ 0 ∷ rest) ≡ name
unfolding c_string
c_string-append [] rest h = refl
c_string-append (b ∷ name) rest h = ground (arith, c_string-append name rest h.1)

after_string-append :
    (name rest : List ℕ) → All (λ b. b ≢ 0) name → after_string (name ++ 0 ∷ rest) ≡ rest
unfolding after_string
after_string-append [] rest h = refl
after_string-append (b ∷ name) rest h = ground (arith, after_string-append name rest h.1)

find-insert :
    (k : ℕ) (c : PendingCallback) (m : List (ℕ × PendingCallback)) → find k (insert k c m) ≡ some c
unfolding find insert
find-insert k c [] = rw (==_refl k)
find-insert k c ((j, d) ∷ m) = elim (Bool-cases (j == k)) [
  | inl e ↦ rw (e, find, ==_refl k)
  | inr e ↦ rw (e, find, e) (find-insert k c m)
]

take-read_bytes :
    (n address : ℕ) (memory : ℕ → ℕ)
    → take n (read_bytes n address memory) ≡ read_bytes n address memory
unfolding read_bytes
take-read_bytes zero address memory = refl
take-read_bytes (suc n) address memory =
    ap (λ l. memory address ∷ l) (take-read_bytes n (address + 1) memory)

leb_of_le : (a b : ℕ) → a ≤ b → leb a b ≡ true
leb_of_le a b h = ground arith

-- A message of this kind has been put on the channel for a caller: it is the last one, its new
-- identifier leads to the caller, and the signal mask is as before.
pub record IsSent (kind : ℕ) (m m' : Machine) (c : PendingCallback) (message : Message)
    : Type 0 where
  pub asks : message.kind ≡ kind
  pub numbered : message.request_id ≡ (m.request_id + 1) % 4294967296
  pub queued : m'.requests ≡ m.requests ++ message ∷ []
  pub pending : m'.pending ≡ insert message.request_id c m.pending
  pub registered : find message.request_id m'.pending ≡ some c
  pub counter : m'.request_id ≡ message.request_id
  pub mask : m'.mask ≡ m.mask
  pub initialized : m'.initialized ≡ m.initialized

module _ (c : Option FileCallback) (d : Option ℕ) (m : Machine) where
  sent_message : ℕ → List ℕ → Message
  sent_message kind payload = record {
    kind = kind;
    request_id = (m.request_id + 1) % 4294967296;
    payload = payload;
  }

  abbrev pub caller : Option ℕ → PendingCallback
  caller dest = record { callback = c; calldata = d; destination = dest }

  send-IsSent :
      (kind : ℕ) (payload : List ℕ) (dest : Option ℕ)
      → IsSent kind m (send kind payload c d dest m) (caller dest) (sent_message kind payload)
  unfolding send suspend_signals add_request resume_signals sent_message
  send-IsSent kind payload dest = record {
    asks = refl;
    numbered = refl;
    queued = refl;
    pending = refl;
    registered = find-insert _ _ m.pending;
    counter = refl;
    mask = refl;
    initialized = refl;
  }

  -- A request of this kind for which the helper process does `result`.
  abbrev pub Served :
      {World : Type 0}
      → Os World
      → ℕ
      → Option ℕ
      → Option Machine
      → (Message → Server → World → Outcome World)
      → Type 0
  Served {World} os kind dest sent result =
      (m' : Machine) × (message : Message) × (sent ≡ some m')
      × IsSent kind m m' (caller dest) message
      × ((v : Server) (w : World) → serve os message v w ≡ result message v w)

  module _ {World : Type 0} (os : Os World) (ready : m.initialized ≡ true) where
    -- Once the machine is initialised, a request to close a descriptor below 2^32 sends one message,
    -- registered for its caller, and serving it is close of that descriptor, answered at once.
    pub file_close-Served :
        (fd : ℕ)
        → fd < 4294967296
        → Served os request_close none
            (file_close fd c d m)
            (λ message v w. some (answered os message v (os.close_file fd w)))
    unfolding file_close serve serve_close sent_message
    file_close-Served fd h = (
      send request_close (set_int fd) c d none m,
      sent_message request_close (set_int fd),
      rw ready,
      send-IsSent request_close (set_int fd) none,
      λ v w. rw (get_int-end fd h),
    )

    -- Once the machine is initialised, a request to open a file sends one message, registered for its
    -- caller, and serving it is open with the very name, flags and mode: for a name without a zero byte
    -- that fits into the message, and flags and mode below 2^32.
    pub file_open-Served :
        (name : List ℕ) (flags mode : ℕ)
        → All (λ b. b ≢ 0) name
        → flags < 4294967296
        → mode < 4294967296
        → length name + 9 ≤ payload_capacity
        → Served os request_open none
            (file_open name flags mode c d m)
            (λ message v w. some (answered os message v (os.open_file name flags mode w)))
    unfolding file_open serve serve_open sent_message open_payload
    file_open-Served name flags mode hn hf hm hl = (
      send request_open (open_payload name flags mode) c d none m,
      sent_message request_open (open_payload name flags mode),
      rw (ready, leb_of_le _ _ hl),
      send-IsSent request_open (open_payload name flags mode) none,
      λ v w. rw (
        after_string-append name (set_int flags ++ set_int mode) hn,
        c_string-append name (set_int flags ++ set_int mode) hn,
        get_int-set_int flags (set_int mode) hf,
        drop-set_int flags (set_int mode),
        get_int-end mode hm,
      ),
    )

    -- Once the machine is initialised, a request to read sends one message, registered with the address
    -- for the data, and serving it records a waiting read of that descriptor and size, both below 2^32,
    -- under the identifier of the message, without a reply.
    pub file_read-Served :
        (fd address size : ℕ)
        → fd < 4294967296
        → size < 4294967296
        → Served os request_read (some address) (file_read fd address size c d m) (λ message v w.
          some (
            w,
            add_read
                (record { request_id = message.request_id; file_descriptor = fd; size = size })
                v,
            [],
          ))
    unfolding file_read serve serve_read sent_message read_payload
    file_read-Served fd address size hf hs = (
      send request_read (read_payload fd size) c d (some address) m,
      sent_message request_read (read_payload fd size),
      rw ready,
      send-IsSent request_read (read_payload fd size) (some address),
      λ v w. rw (
        get_int-set_int fd (set_int size) hf,
        drop-set_int fd (set_int size),
        get_int-end size hs,
      ),
    )

    -- Once the machine is initialised, a request to write sends one message, registered for its caller,
    -- and serving it is write of the bytes that stood at the address: for a descriptor below 2^32 and a
    -- size that fits into the message.
    pub file_write-Served :
        (fd address size : ℕ)
        → fd < 4294967296
        → size + 8 ≤ payload_capacity
        → Served os request_write none (file_write fd address size c d m) (λ message v w.
          some (answered os message v (os.write_file fd (read_bytes size address m.memory) w)))
    unfolding file_write serve serve_write sent_message write_payload
    file_write-Served fd address size hf hs = (
      send request_write (write_payload fd size bytes) c d none m,
      sent_message request_write (write_payload fd size bytes),
      rw (ready, leb_of_le _ _ hs),
      send-IsSent request_write (write_payload fd size bytes) none,
      λ v w. rw (
        get_int-set_int fd (set_int size ++ bytes) hf,
        drop-set_int fd (set_int size ++ bytes),
        get_int-set_int size bytes (omega arith),
        drop-set_int_two fd size bytes,
        take-read_bytes size address m.memory,
      ),
    )
      where
        bytes : List ℕ
        bytes = read_bytes size address m.memory

    -- Once the machine is initialised, a request to seek sends one message, registered for its caller,
    -- and serving it is lseek with the same three numbers, each below 2^32.
    pub file_seek-Served :
        (fd offset whence : ℕ)
        → fd < 4294967296
        → offset < 4294967296
        → whence < 4294967296
        → Served os request_seek none
            (file_seek fd offset whence c d m)
            (λ message v w. some (answered os message v (os.seek_file fd offset whence w)))
    unfolding file_seek serve serve_seek sent_message seek_payload
    file_seek-Served fd offset whence hf ho hw = (
      send request_seek (seek_payload fd offset whence) c d none m,
      sent_message request_seek (seek_payload fd offset whence),
      rw ready,
      send-IsSent request_seek (seek_payload fd offset whence) none,
      λ v w. rw (
        get_int-set_int fd (set_int offset ++ set_int whence) hf,
        drop-set_int fd (set_int offset ++ set_int whence),
        get_int-set_int offset (set_int whence) ho,
        drop-set_int_two fd offset (set_int whence),
        get_int-end whence hw,
      ),
    )

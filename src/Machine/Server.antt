-- ===== src/Machine/Server.antt =====
-- Machine.cpp: the helper process of MachineInitialize. What the operating system does is a
-- parameter: each call takes the state of the world and returns it with an `int`.
use project.Prelude.{
  ℕ, Bool, true, false, ◌||◌, Option, none, some, List, [], ◌∷◌, ◌++◌, ◌==◌, if◌then◌else◌, take,
  drop,
}
use project.Machine.Data.{
  request_open, request_read, request_write, request_seek, request_close, request_terminate,
  Message,
}
use project.Machine.Codec.{get_int, set_int}

pub record PendingRead : Type 0 where
  pub request_id : ℕ
  pub file_descriptor : ℕ
  pub size : ℕ

-- `buffer_kind` is the kind of the message that the buffer holds: the last one received.
pub record Server : Type 0 where
  pub buffer_kind : ℕ
  pub terminated : Bool
  pub poll_fds : List ℕ
  pub pending_reads : List PendingRead

-- open, write, lseek, close; and read: what there is to read, of which read stores as much as it is
-- asked for, or nothing if it fails.
pub record Os (World : Type 0) : Type 0 where
  pub open_file : List ℕ → ℕ → ℕ → World → World × ℕ
  pub write_file : ℕ → List ℕ → World → World × ℕ
  pub seek_file : ℕ → ℕ → ℕ → World → World × ℕ
  pub close_file : ℕ → World → World × ℕ
  pub read_file : ℕ → ℕ → World → World × Option (List ℕ)

-- strlen and the string before the first zero byte; the bytes behind it.
unfoldable pub c_string : List ℕ → List ℕ
c_string [] = []
c_string (b ∷ bytes) = if b == 0 then [] else b ∷ c_string bytes

unfoldable pub after_string : List ℕ → List ℕ
after_string [] = []
after_string (b ∷ bytes) = if b == 0 then bytes else after_string bytes

unfoldable pub polls : ℕ → List ℕ → Bool
polls fd [] = false
polls fd (g ∷ fds) = g == fd || polls fd fds

-- A read that waits, and its descriptor among those that are polled.
unfoldable pub add_read : PendingRead → Server → Server
add_read r v = record v {
  poll_fds =
      if polls r.file_descriptor v.poll_fds
      then v.poll_fds
      else v.poll_fds ++ r.file_descriptor ∷ [];
  pending_reads = v.pending_reads ++ r ∷ [];
}

-- What a request leads to: the world, the server and the replies. `none` means that the message is
-- shorter than its kind asks for.
abbrev pub Outcome : Type 0 → Type 0
Outcome World = Option (World × Server × List Message)

infixl 5 ◌>>=◌
abbrev ◌>>=◌ : {A B : Type 0} → Option A → (A → Option B) → Option B
none >>= f = none
some a >>= f = f a

module _ {World : Type 0} (os : Os World) where
  abbrev pub answered : Message → Server → World × ℕ → World × Server × List Message
  answered message v (w, result) = (
    w,
    v,
    record { kind = message.kind; request_id = message.request_id; payload = set_int result } ∷ [],
  )

  unfoldable pub serve_open : Message → Server → World → Outcome World
  serve_open message v w = do
    flags ← get_int (after_string message.payload)
    mode ← get_int (drop 4 (after_string message.payload))
    some (answered message v (os.open_file (c_string message.payload) flags mode w))

  unfoldable pub serve_read : Message → Server → World → Outcome World
  serve_read message v w = do
    fd ← get_int message.payload
    size ← get_int (drop 4 message.payload)
    some (
      w,
      add_read (record { request_id = message.request_id; file_descriptor = fd; size = size }) v,
      [],
    )

  unfoldable pub serve_write : Message → Server → World → Outcome World
  serve_write message v w = do
    fd ← get_int message.payload
    size ← get_int (drop 4 message.payload)
    some (answered message v (os.write_file fd (take size (drop 8 message.payload)) w))

  unfoldable pub serve_seek : Message → Server → World → Outcome World
  serve_seek message v w = do
    fd ← get_int message.payload
    offset ← get_int (drop 4 message.payload)
    whence ← get_int (drop 8 message.payload)
    some (answered message v (os.seek_file fd offset whence w))

  unfoldable pub serve_close : Message → Server → World → Outcome World
  serve_close message v w = do
    fd ← get_int message.payload
    some (answered message v (os.close_file fd w))
      -- The switch on the kind of a message that has been received.

  unfoldable pub serve : Message → Server → World → Outcome World
  serve message v w =
      if message.kind == request_open
      then serve_open message v w
      else if message.kind == request_read
      then serve_read message v w
      else if message.kind == request_write
      then serve_write message v w
      else if message.kind == request_seek
      then serve_seek message v w
      else if message.kind == request_close
      then serve_close message v w
      else if message.kind == request_terminate
      then some (w, record v { terminated = true }, [])
      else some (w, v, [])

  -- One round of the loop over the request channel.
  unfoldable pub receive : Message → Server → World → Outcome World
  receive message v w = serve message (record v { buffer_kind = message.kind }) w

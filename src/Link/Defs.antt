-- ===== src/Link/Defs.antt =====
-- Machine.cpp: the loop of the helper process in MachineInitialize, one message or one descriptor at
-- a time, beside the process of the virtual machine.
use project.Prelude.{
  ℕ, ◌+◌, ◌≤◌, ◌<◌, ◌≡◌, ◌≢◌, Bool, true, false, ◌&&◌, ◌||◌, Option, none, some, List, [], ◌∷◌,
  ◌++◌, if◌then◌else◌, length, All,
}
use project.Machine.Data.{payload_capacity, machine_file_io_callback, Message, Machine}
use project.Machine.Requests
use project.Machine.Server.{Server, Os, PendingRead, polls, receive}
use project.Machine.Poll.{take_read, perform_read, clean_fds}
use project.Vm.Data.{ThreadStore}
use project.Vm.Reply.{handle_reply}

-- Where the helper process is. `revents` says which of the descriptors that were polled have an event;
-- one that joins the vector after the call of poll has none.
pub data Phase : Type 0 where
  polling : Phase
  receiving : (ℕ → Bool) → Phase
  reading : (ℕ → Bool) → List ℕ → Phase
  stopped : Phase

-- `pending_request` is MachinePendingRequest, and `signal` is whether SIGUSR2 waits to be delivered:
-- the process opens its mask only behind poll.
pub record Helper (World : Type 0) : Type 0 where
  pub server : Server
  pub world : World
  pub phase : Phase
  pub pending_request : Bool
  pub signal : Bool

-- What poll and the test on the parent give in one round: the events, whether poll ran into its
-- time-out, and whether kill finds no parent.
pub record Polled : Type 0 where
  pub revents : ℕ → Bool
  pub timed_out : Bool
  pub parent_gone : Bool

-- `replies` is the reply channel; the request channel is part of the machine. `owes_signal` holds
-- between msgsnd and kill.
pub record Link (World : Type 0) : Type 0 where
  pub store : ThreadStore
  pub owes_signal : Bool
  pub helper : Helper World
  pub replies : List Message

abbrev pub requests_of : {World : Type 0} → Link World → List Message
requests_of l = l.store.machine.requests

abbrev pub with_requests : List Message → ThreadStore → ThreadStore
with_requests messages s = record s { machine = record s.machine { requests = messages } }

module _ {World : Type 0} where
  -- From poll to the loop over the descriptors, or to the loop over the messages.
  unfoldable pub wake : Polled → Helper World → Helper World
  wake p h =
      if h.pending_request || h.signal
      then record h { pending_request = true; signal = false; phase = receiving events }
      else record h { server = server; phase = reading events h.server.poll_fds }
    where
      events : ℕ → Bool
      events fd = polls fd h.server.poll_fds && p.revents fd

      server : Server
      server =
          if p.timed_out && p.parent_gone then record h.server { terminated = true } else h.server

  -- No message is left: the flag is taken back.
  unfoldable pub drained : (ℕ → Bool) → Helper World → Helper World
  drained revents h = record h {
    pending_request = false;
    phase = reading revents h.server.poll_fds;
  }

  -- The end of a round of the outer loop.
  unfoldable pub round_done : Helper World → Helper World
  round_done h = record h {
    server = record h.server { poll_fds = clean_fds h.server.pending_reads h.server.poll_fds };
    phase = if h.server.terminated then stopped else polling;
  }

  module _ (os : Os World) where
    abbrev pub received :
        ThreadStore → Link World → Option (World × Server × List Message) → Option (Link World)
    received s l none = none
    received s l (some (w, v, out)) = some (record l {
      store = s;
      helper = record l.helper { server = v; world = w };
      replies = l.replies ++ out;
    })

    -- msgrcv and the switch on the kind of the message.
    unfoldable pub receive_next : Message → List Message → Link World → Option (Link World)
    receive_next message rest l =
        received (with_requests rest l.store) l (receive os message l.helper.server l.helper.world)

    abbrev pub performed :
        (ℕ → Bool)
        → List ℕ
        → Link World
        → Option (World × List PendingRead × List Message)
        → Option (Link World)
    performed revents fds l none = none
    performed revents fds l (some (w, reads, out)) = some (record l {
      helper = record l.helper {
        server = record l.helper.server { pending_reads = reads };
        world = w;
        phase = reading revents fds;
      };
      replies = out;
    })

    -- One descriptor of the loop over them.
    unfoldable pub read_next : (ℕ → Bool) → ℕ → List ℕ → Link World → Option (Link World)
    read_next revents fd fds l = performed revents fds l (
        if revents fd
        then perform_read os v.buffer_kind (take_read fd v.pending_reads)
            (l.helper.world, v.pending_reads, l.replies)
        else some (l.helper.world, v.pending_reads, l.replies))
      where
        v : Server
        v = l.helper.server

abbrev pub IsInt : ℕ → Type 0
IsInt x = x < 4294967296

-- The calls that the virtual machine makes, for a thread `t`. The arguments are an `int` each, a name
-- is a C string, and names and data fit into a message, also the data of a read.
pub data Asks (t : ℕ) (m : Machine) : Option Machine → Type 0 where
  opens :
      (name : List ℕ) (flags mode : ℕ)
      → All (λ b. b ≢ 0) name
      → IsInt flags
      → IsInt mode
      → length name + 9 ≤ payload_capacity
      → Asks t m (Requests.file_open name flags mode (some machine_file_io_callback) (some t) m)
  reads :
      (fd address size : ℕ)
      → IsInt fd
      → size + 4 ≤ payload_capacity
      → Asks t m (Requests.file_read fd address size (some machine_file_io_callback) (some t) m)
  writes :
      (fd address size : ℕ)
      → IsInt fd
      → size + 8 ≤ payload_capacity
      → Asks t m (Requests.file_write fd address size (some machine_file_io_callback) (some t) m)
  seeks :
      (fd offset whence : ℕ)
      → IsInt fd
      → IsInt offset
      → IsInt whence
      → Asks t m (Requests.file_seek fd offset whence (some machine_file_io_callback) (some t) m)
  closes :
      (fd : ℕ)
      → IsInt fd
      → Asks t m (Requests.file_close fd (some machine_file_io_callback) (some t) m)
  terminates : Asks t m (some (Requests.terminate m))

-- A request for a file, whose caller waits for a reply.
abbrev pub IsFile : {t : ℕ} {m : Machine} {r : Option Machine} → Asks t m r → Type 0
IsFile (opens name flags mode hn hf hm hl) = Unit
IsFile (reads fd address size hf hs) = Unit
IsFile (writes fd address size hf hs) = Unit
IsFile (seeks fd offset whence hf ho hw) = Unit
IsFile (closes fd hf) = Unit
IsFile terminates = ⊥

-- What the virtual machine does besides leaves the traffic alone.
pub record IsQuiet (s s' : ThreadStore) : Type 0 where
  pub pending : s'.machine.pending ≡ s.machine.pending
  pub requests : s'.machine.requests ≡ s.machine.requests
  pub request_id : s'.machine.request_id ≡ s.machine.request_id
  pub initialized : s'.machine.initialized ≡ s.machine.initialized

module _ {World : Type 0} (os : Os World) where
  pub data Step (l : Link World) : Link World → Type 0 where
    work : (s : ThreadStore) → IsQuiet l.store s → Step l (record l { store = s })
    -- the identifiers have not run out
    ask :
        (t : ℕ) (m : Machine) {r : Option Machine}
        → l.owes_signal ≡ false
        → l.store.machine.request_id < 4294967295
        → Asks t l.store.machine r
        → r ≡ some m
        → Step l (record l { store = record l.store { machine = m }; owes_signal = true })
    notify :
        l.owes_signal ≡ true
        → Step l (record l { owes_signal = false; helper = record l.helper { signal = true } })
    wakes : (p : Polled) → l.helper.phase ≡ polling → Step l (record l { helper = wake p l.helper })
    receives :
        (revents : ℕ → Bool) (message : Message) (rest : List Message) {l' : Link World}
        → l.helper.phase ≡ receiving revents
        → requests_of l ≡ message ∷ rest
        → receive_next os message rest l ≡ some l'
        → Step l l'
    drains :
        (revents : ℕ → Bool)
        → l.helper.phase ≡ receiving revents
        → requests_of l ≡ []
        → Step l (record l { helper = drained revents l.helper })
    performs :
        (revents : ℕ → Bool) (fd : ℕ) (fds : List ℕ) {l' : Link World}
        → l.helper.phase ≡ reading revents (fd ∷ fds)
        → read_next os revents fd fds l ≡ some l'
        → Step l l'
    finishes :
        (revents : ℕ → Bool)
        → l.helper.phase ≡ reading revents []
        → Step l (record l { helper = round_done l.helper })
    replies :
        (reply : Message) (rest : List Message) (s : ThreadStore)
        → l.replies ≡ reply ∷ rest
        → handle_reply reply l.store ≡ some s
        → Step l (record l { store = s; replies = rest })

  -- The signal that follows a request, and the steps of the helper process.
  abbrev pub IsBeside : {l l' : Link World} → Step l l' → Type 0
  IsBeside (work s q) = ⊥
  IsBeside (ask t m o small a e) = ⊥
  IsBeside (notify e) = Unit
  IsBeside (wakes p e) = Unit
  IsBeside (receives revents q rest e k h) = Unit
  IsBeside (drains revents e k) = Unit
  IsBeside (performs revents fd fds e k) = Unit
  IsBeside (finishes revents e) = Unit
  IsBeside (replies q rest s e h) = ⊥

  pub data Reach (a : Link World) : Link World → Type 0 where
    here : Reach a a
    next : {b c : Link World} → Reach a b → Step b c → Reach a c

-- The two processes once MachineInitialize is done.
unfoldable pub start : {World : Type 0} → ThreadStore → World → Link World
start s w = record {
  store = s;
  owes_signal = false;
  helper = record {
    server = record { buffer_kind = 0; terminated = false; poll_fds = []; pending_reads = [] };
    world = w;
    phase = polling;
    pending_request = false;
    signal = false;
  };
  replies = [];
}

-- A machine that is initialised and has no traffic yet.
pub record IsUnused (m : Machine) : Type 0 where
  pub initialized : m.initialized ≡ true
  pub pending : m.pending ≡ []
  pub requests : m.requests ≡ []

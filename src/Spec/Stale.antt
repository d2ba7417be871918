-- ===== src/Spec/Stale.antt =====
-- Machine.cpp: the reply to a read that goes out with the kind of another message.
use project.Prelude.{
  ℕ, ◌+◌, ◌≤◌, ◌≡◌, refl, true, false, Option, none, some, List, [], ◌∷◌, arith, ◌==◌, length,
  ==_refl,
}
use project.Machine.Data.{request_read, Message, payload_capacity, find, erase}
use project.Machine.Codec.{get_int, set_int, get_int-set_int}
use project.Machine.Server.{Os, PendingRead}
use project.Machine.Poll.{
  read_reply, perform_read, bytes_read, fits, fits-bytes_read, result_payload,
}
use project.Vm.Data.{ThreadStore}
use project.Vm.Tcb.{set_file_io_result, set_is_waiting_on_io}
use project.Vm.Timer
use project.Vm.Reply.{handle_reply, copy_data}
use project.Spec.Replies.{reader}

-- The reply is taken, the thread has the result and waits no longer, and the memory is as before.
pub record IsLost (t result : ℕ) (reply : Message) (s : ThreadStore) (u : ThreadStore)
    : Type 0 where
  pub taken : handle_reply reply s ≡ some u
  pub result_there : (u.tcb t).file_io_result ≡ result
  pub runs_again : (u.tcb t).waiting_on_io ≡ false
  pub memory_kept : u.machine.memory ≡ s.machine.memory

-- The result that the reply carries.
abbrev pub result_of : Option (List ℕ) → ℕ
result_of none = 4294967295
result_of (some bytes) = length bytes

failed : get_int (set_int 4294967295) ≡ some 4294967295
unfolding get_int set_int
failed = refl

get_int-result_payload :
    (o : Option (List ℕ)) → fits o ≡ true → get_int (result_payload o) ≡ some (result_of o)
get_int-result_payload none h = failed
get_int-result_payload (some bytes) h = get_int-set_int (length bytes) bytes (ground (arith, h))

-- The helper process performs a waiting read, whose size leaves room for the result in its buffer,
-- with any result of read and any data, while its buffer holds a message of another kind than read.
-- It sends one reply, with the result and all the data that read has stored; and where the read is
-- pending for a thread, that reply gives the thread the result and takes it out of its wait for the
-- reply, but copies none of the data into the memory.
pub perform_read-IsLost :
    {World : Type 0} (os : Os World) (kind t address : ℕ) (r : PendingRead)
    (rest rs : List PendingRead) (w w' : World) (bytes : Option (List ℕ)) (s : ThreadStore)
    → (kind == request_read) ≡ false
    → r.size + 4 ≤ payload_capacity
    → os.read_file r.file_descriptor r.size w ≡ (w', bytes)
    → find r.request_id s.machine.pending ≡ some (reader t address)
    → (reply : Message) × (u : ThreadStore) × (perform_read os kind (some (r, rest)) (w, rs, [])
        ≡ some (w', rest, reply ∷ []))
      × (reply.payload ≡ result_payload (bytes_read r.size bytes))
      × IsLost t (result_of (bytes_read r.size bytes)) reply s u
unfolding handle_reply copy_data
perform_read-IsLost os kind t address r rest rs w w' bytes s other small e pending = (
  read_reply kind r got,
  Timer.machine_file_io_callback t (result_of got)
      (record s { machine = record s.machine { pending = erase r.request_id s.machine.pending } }),
  rw (e, fits-bytes_read r.size bytes small) refl,
  refl,
  record {
    taken =
        rw (pending, get_int-result_payload got (fits-bytes_read r.size bytes small), other) refl;
    result_there =
        unfold Timer.machine_file_io_callback set_file_io_result set_is_waiting_on_io in
        rw (==_refl t) refl;
    runs_again = unfold Timer.machine_file_io_callback set_is_waiting_on_io in rw (==_refl t) refl;
    memory_kept =
        unfold Timer.machine_file_io_callback set_file_io_result set_is_waiting_on_io in refl;
  },
)
  where
    got : Option (List ℕ)
    got = bytes_read r.size bytes

-- ===== src/Machine/Requests.antt =====
-- Machine.cpp: MachineAddRequest and the MachineFile* functions, which put a message on the request
-- channel. `none` means that the buffer on the stack is overrun.
use project.Prelude.{
  ℕ, zero, suc, ◌+◌, ◌%◌, List, [], ◌∷◌, ◌++◌, Option, none, some, leb, if◌then◌else◌, length,
}
use project.Machine.Data.{
  request_open, request_read, request_write, request_seek, request_close, request_terminate,
  payload_capacity, FileCallback, PendingCallback, Message, Machine, insert,
}
use project.Machine.Codec.{set_int}
use project.Machine.Signals.{suspend_signals, resume_signals}

-- The new state and the identifier of the request.
unfoldable pub add_request : Option FileCallback → Option ℕ → Option ℕ → Machine → Machine × ℕ
add_request callback calldata dest m =
    let id = (m.request_id + 1) % 4294967296 in
    (record m { request_id = id; pending = insert id entry m.pending }, id)
  where
    entry : PendingCallback
    entry = record { callback = callback; calldata = calldata; destination = dest }

-- The part that the functions share: suspend, register, send and resume.
unfoldable pub send : ℕ → List ℕ → Option FileCallback → Option ℕ → Option ℕ → Machine → Machine
send kind payload callback calldata dest m =
    let (m1, saved) = suspend_signals m in
    let (m2, id) = add_request callback calldata dest m1 in
    let message : Message = record { kind = kind; request_id = id; payload = payload } in
    resume_signals saved (record m2 { requests = m2.requests ++ message ∷ [] })

-- memcpy from the memory of the process
unfoldable pub read_bytes : ℕ → ℕ → (ℕ → ℕ) → List ℕ
read_bytes zero address memory = []
read_bytes (suc n) address memory = memory address ∷ read_bytes n (address + 1) memory

-- The payloads, by kind of request.
unfoldable pub open_payload : List ℕ → ℕ → ℕ → List ℕ
open_payload filename flags mode = filename ++ 0 ∷ (set_int flags ++ set_int mode)

unfoldable pub read_payload : ℕ → ℕ → List ℕ
read_payload fd size = set_int fd ++ set_int size

unfoldable pub write_payload : ℕ → ℕ → List ℕ → List ℕ
write_payload fd size bytes = set_int fd ++ (set_int size ++ bytes)

unfoldable pub seek_payload : ℕ → ℕ → ℕ → List ℕ
seek_payload fd offset whence = set_int fd ++ (set_int offset ++ set_int whence)

unfoldable pub file_open :
    List ℕ → ℕ → ℕ → Option FileCallback → Option ℕ → Machine → Option Machine
file_open filename flags mode callback calldata m =
    if m.initialized
    then if leb (length filename + 9) payload_capacity
      then some (send request_open (open_payload filename flags mode) callback calldata none m)
      else none
    else some m

unfoldable pub file_read : ℕ → ℕ → ℕ → Option FileCallback → Option ℕ → Machine → Option Machine
file_read fd address size callback calldata m =
    if m.initialized
    then some (send request_read (read_payload fd size) callback calldata (some address) m)
    else some m

-- A length that is negative as an `int` is a huge `size_t` for memcpy.
unfoldable pub file_write : ℕ → ℕ → ℕ → Option FileCallback → Option ℕ → Machine → Option Machine
file_write fd address size callback calldata m =
    let bytes = read_bytes size address m.memory in
    if m.initialized
    then if leb (size + 8) payload_capacity
      then some (send request_write (write_payload fd size bytes) callback calldata none m)
      else none
    else some m

unfoldable pub file_seek : ℕ → ℕ → ℕ → Option FileCallback → Option ℕ → Machine → Option Machine
file_seek fd offset whence callback calldata m =
    if m.initialized
    then some (send request_seek (seek_payload fd offset whence) callback calldata none m)
    else some m

unfoldable pub file_close : ℕ → Option FileCallback → Option ℕ → Machine → Option Machine
file_close fd callback calldata m =
    if m.initialized
    then some (send request_close (set_int fd) callback calldata none m)
    else some m

-- MachineTerminate: the alarm is switched off, and the helper process is told to end.
unfoldable pub terminate : Machine → Machine
terminate m =
    if m.initialized
    then send request_terminate [] none none none (record m { alarm = none })
    else m

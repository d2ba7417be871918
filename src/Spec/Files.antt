-- ===== src/Spec/Files.antt =====
-- VirtualMachine.cpp, UtilityFunctions.cpp and Machine.cpp: a read of a file from the call to its result.
use project.Prelude.{
  ℕ, ◌+◌, ◌≤◌, ◌<◌, ◌≡◌, refl, ◌∙◌, true, some, List, [], ◌∷◌, ◌++◌, arith, length, take,
}
use project.Machine.Data.{
  SigSet, Machine, Message, payload_capacity, request_read, machine_file_io_callback, find,
}
use project.Machine.Requests.{file_read}
use project.Machine.RoundTrip.{IsSent, Served, file_read-Served}
use project.Machine.Poll.{perform_read, fits-bytes_read, length-take-le}
use project.Machine.Server.{PendingRead, Os, Server, add_read, serve}
use project.Vm.Data.{ThreadStore, success}
use project.Machine.Signals.{suspend_signals}
use project.Vm.Reply.{handle_reply}
use project.Api.Call.{suspend, answer}
use project.Api.Files.{file_result, vm_file_read}
use project.Safety.Inv.{Inv}
use project.Safety.Calls.Common.{suspend-Next}
use project.Spec.Replies.{IsDelivered, read_reply, reader, handle_reply-IsDelivered}
use project.Spec.IoWait.{Waits, perform-Waits, file_result-success}

-- The request is the last one on the channel, the thread waits, and serving the request notes the read.
pub record IsRequested {World : Type 0} (os : Os World) (fd address size : ℕ) (s : ThreadStore)
    (message : Message) (m : Machine) : Type 0 where
  pub goes_out :
      IsSent request_read (suspend_signals s.machine).0 m (reader s.current_thread address) message
  pub served :
      (v : Server) (w : World)
      → serve os message v w
        ≡ some (
          w,
          add_read
              (record { request_id = message.request_id; file_descriptor = fd; size = size })
              v,
          [],
        )
  pub waits :
      Waits s.current_thread
        (λ u. u.machine ≡ m)
        (file_result s.machine.mask s.current_thread true)
        (vm_file_read fd (some address) (some size) s)

-- The reply to this request is delivered in a store where the request is pending, and then the call
-- returns success with the number of bytes, once the thread runs again.
abbrev pub Completes : ℕ → ℕ → ℕ → SigSet → List ℕ → ThreadStore → Type 0
Completes id c address mask bytes w =
    (x : ThreadStore) × (handle_reply (read_reply id bytes) w ≡ some x)
    × IsDelivered id c address bytes x
    × ((y : ThreadStore)
        → (y.tcb c).file_io_result ≡ (x.tcb c).file_io_result
        → file_result mask c true y ≡ answer mask success (some (length bytes)) y)

abbrev pub noted : Message → ℕ → ℕ → PendingRead
noted message fd size = record {
  request_id = message.request_id;
  file_descriptor = fd;
  size = size;
}

-- A read of a file from end to end, in a store with the invariant and an initialised machine, for a
-- descriptor below 2^32 and a size that leaves room for the result in the buffer of a message. The
-- call of VMFileRead puts one message on the request channel, registered for the calling thread and
-- its address, and hands the processor over with that state of the machine; the helper process
-- notes exactly this read. When it performs the read, with a buffer that holds a message of the
-- kind read, and at least one byte is stored, it sends one reply with exactly the bytes that there
-- are to read, up to the size. In every store in which the request is pending, this reply puts
-- these bytes at the address, and the request is pending no longer. With the result that the reply
-- stores for the thread, what is left of the call returns success and the number of bytes, under
-- the mask of before.
pub vm_file_read-IsRequested :
    {World : Type 0} (os : Os World) (fd address size : ℕ) (w w' : World) (available : List ℕ)
    (rest rs : List PendingRead) (out : List Message) (s : ThreadStore)
    → Inv s
    → s.machine.initialized ≡ true
    → fd < 4294967296
    → size + 4 ≤ payload_capacity
    → os.read_file fd size w ≡ (w', some available)
    → 0 < length (take size available)
    → (message : Message) × (m : Machine) × IsRequested os fd address size s message m
      × ((perform_read os request_read (some (noted message fd size, rest)) (w, rs, out)
            ≡ some (w', rest, out ++ read_reply message.request_id (take size available) ∷ []))
          × ((x : ThreadStore)
              → find message.request_id x.machine.pending ≡ some (reader s.current_thread address)
              → Completes message.request_id s.current_thread address s.machine.mask
                  (take size available)
                  x))
unfolding vm_file_read suspend suspend_signals
vm_file_read-IsRequested {World} os fd address size w w' available rest rs out s v ready hf hs got
      low =
    go (
      file_read-Served (some machine_file_io_callback) (some s.current_thread)
        (suspend_signals s.machine).0 os ready fd address size hf (omega (arith, hs)))
  where
    short : length (take size available) < 2147483648
    short = omega (arith, length-take-le size available, hs)

    s1 : ThreadStore
    s1 = (suspend s).0

    go :
        Served
          (some machine_file_io_callback)
          (some s.current_thread)
          (suspend_signals s.machine).0
          os
          request_read
          (some address)
          (file_read fd address size
            (some machine_file_io_callback)
            (some s.current_thread)
            (suspend_signals s.machine).0)
          (λ message v w. some (
            w,
            add_read
                (record { request_id = message.request_id; file_descriptor = fd; size = size })
                v,
            [],
          ))
        → (message : Message) × (m : Machine) × IsRequested os fd address size s message m
          × ((perform_read os request_read (some (noted message fd size, rest)) (w, rs, out)
                ≡ some (w', rest, out ++ read_reply message.request_id (take size available) ∷ []))
              × ((x : ThreadStore)
                  → find message.request_id x.machine.pending
                    ≡ some (reader s.current_thread address)
                  → Completes message.request_id s.current_thread address s.machine.mask
                      (take size available)
                      x))
    go (m, message, e, sent, served) = (
      message,
      m,
      record {
        goes_out = sent;
        served = served;
        waits =
            perform-Waits s.machine.mask (file_read fd address size) true s1 m
              (suspend-Next s v).inv e;
      },
      (
        rw (got, fits-bytes_read size (some available) hs) refl,
        λ x pending.
            let (x1, handled, delivered) =
              handle_reply-IsDelivered message.request_id s.current_thread address
                (take size available) x low short pending in
            (
              x1,
              handled,
              delivered,
              λ y same.
                  file_result-success s.machine.mask s.current_thread (length (take size available))
                    y (same ∙ delivered.result_there) short,
            ),
      ),
    )

-- ===== src/Vm/Reply.antt =====
-- Machine.cpp: MachineReplySignalHandler, with the callback that the virtual machine registers.
use mathlib.Core.Option
use project.Prelude.{
  ℕ, ◌+◌, not, ◌&&◌, Option, none, some, List, [], ◌∷◌, ltb, leb, length, ◌==◌, if◌then◌else◌,
  update, take, drop,
}
use project.Machine.Data.{
  request_read, FileCallback, machine_file_io_callback, PendingCallback, Message, Machine, find,
  erase,
}
use project.Machine.Codec.{get_int, is_negative}
use project.Vm.Data.{ThreadStore}
use project.Vm.Timer

-- memcpy into the memory of the process
unfoldable pub write_bytes : ℕ → List ℕ → (ℕ → ℕ) → ℕ → ℕ
write_bytes address [] memory = memory
write_bytes address (b ∷ bytes) memory = write_bytes (address + 1) bytes (update memory address b)

-- A call of the callback; `none` is a call through NULL.
abbrev pub call_back : Option FileCallback → Option ℕ → ℕ → ThreadStore → Option ThreadStore
call_back (some machine_file_io_callback) (some t) result s =
    some (Timer.machine_file_io_callback t result s)
call_back _ _ result s = none

-- The data of a read, if there are any, go to the destination; `none` is a write through NULL or a
-- read past the end of the message.
unfoldable pub copy_data : Message → ℕ → Option ℕ → Machine → Option Machine
copy_data message result destination m =
    if message.kind == request_read && (ltb 0 result && not (is_negative result))
    then if leb result (length (drop 4 message.payload))
      then Option.map
          (λ address. record m {
            memory = write_bytes address (take result (drop 4 message.payload)) m.memory;
          })
          destination
      else none
    else some m

abbrev pub finish_reply : PendingCallback → ℕ → ThreadStore → Option Machine → Option ThreadStore
finish_reply c result s none = none
finish_reply c result s (some m) = call_back c.callback c.calldata result (record s { machine = m })

abbrev pub reply_with : Message → PendingCallback → Option ℕ → ThreadStore → Option ThreadStore
reply_with message c none s = none
reply_with message c (some result) s = finish_reply c result s (
    copy_data message result c.destination
      (record s.machine { pending = erase message.request_id s.machine.pending }))

abbrev pub reply_found : Message → Option PendingCallback → ThreadStore → Option ThreadStore
reply_found message none s = some s
reply_found message (some c) s = reply_with message c (get_int message.payload) s

-- One message: a reply to no pending request is passed over.
unfoldable pub handle_reply : Message → ThreadStore → Option ThreadStore
handle_reply message s = reply_found message (find message.request_id s.machine.pending) s

-- The loop over the messages of the reply channel.
unfoldable pub reply_signal_handler : List Message → ThreadStore → Option ThreadStore
reply_signal_handler [] s = some s
reply_signal_handler (message ∷ rest) s =
    Option.bind (handle_reply message s) (reply_signal_handler rest)

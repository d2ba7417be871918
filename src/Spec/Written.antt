-- ===== src/Spec/Written.antt =====
-- VirtualMachine.cpp and VirtualMachineUtils.c: what VMFileWrite and VMFilePrint have the helper process
-- write.
use project.Prelude.{
  ℕ, ◌+◌, ◌-◌, ◌≤◌, ◌<◌, ◌≡◌, refl, sym, subst, ◌∙◌, inl, inr, true, Option, none, some, List, [],
  ◌∷◌, ◌++◌, ltb, if◌then◌else◌, Bool-cases, length, take,
}
use project.Machine.Data.{
  Machine, Message, PendingCallback, request_write, machine_file_io_callback, payload_capacity,
}
use project.Machine.Signals.{suspend_signals}
use project.Machine.Requests.{file_write, read_bytes}
use project.Machine.RoundTrip.{IsSent, Served, file_write-Served}
use project.Machine.Server.{Os, Server, serve, answered}
use project.Vm.Data.{ThreadStore}
use project.Vm.Run.{Run}
use project.Api.Call.{Reply, suspend}
use project.Api.Files.{file_result, vm_file_write}
use project.Api.Print.{small_buffer_size, stored, write_memory, write_text, vm_file_print}
use project.Safety.Inv.{Inv}
use project.Safety.Steps.{machine-Next}
use project.Safety.Calls.Common.{suspend-Next}
use project.Spec.IoWait.{Waits, perform-Waits}
use project.Spec.Print.{formatted, format_text-formatted, printed_lem}

abbrev pub writer : ℕ → PendingCallback
writer t = record {
  callback = some machine_file_io_callback;
  calldata = some t;
  destination = none;
}

-- The call `r` from the store `s` sends one request and waits, and to serve the request is to write
-- these bytes.
pub record IsWritten {World : Type 0} (os : Os World) (fd : ℕ) (bytes : List ℕ) (s : ThreadStore)
    (message : Message) (m : Machine) (r : Run Reply) : Type 0 where
  pub goes_out :
      IsSent request_write (suspend_signals s.machine).0 m (writer s.current_thread) message
  pub served :
      (v : Server) (w : World)
      → serve os message v w ≡ some (answered os message v (os.write_file fd bytes w))
  pub waits :
      Waits s.current_thread
        (λ u. u.machine ≡ m)
        (file_result s.machine.mask s.current_thread true)
        r

module _ {World : Type 0} (os : Os World) where
  vm_file_write-IsWritten :
      (fd address size : ℕ) (s : ThreadStore)
      → Inv s
      → s.machine.initialized ≡ true
      → fd < 4294967296
      → size + 8 ≤ payload_capacity
      → (message : Message) × (m : Machine) × IsWritten os fd
          (read_bytes size address s.machine.memory)
          s
          message
          m
          (vm_file_write fd (some address) (some size) s)
  unfolding vm_file_write suspend suspend_signals
  vm_file_write-IsWritten fd address size s v ready hf hs = go (
      file_write-Served (some machine_file_io_callback) (some s.current_thread)
        (suspend_signals s.machine).0 os ready fd address size hf hs)
    where
      s1 : ThreadStore
      s1 = (suspend s).0

      go :
          Served
            (some machine_file_io_callback)
            (some s.current_thread)
            (suspend_signals s.machine).0
            os
            request_write
            none
            (file_write fd address size
              (some machine_file_io_callback)
              (some s.current_thread)
              (suspend_signals s.machine).0)
            (λ message v w. some (
              answered os message v
                (os.write_file fd (read_bytes size address s.machine.memory) w)))
          → (message : Message) × (m : Machine) × IsWritten os fd
              (read_bytes size address s.machine.memory)
              s
              message
              m
              (vm_file_write fd (some address) (some size) s)
      go (m, message, e, sent, served) = (
        message,
        m,
        record {
          goes_out = sent;
          served = served;
          waits =
              perform-Waits s.machine.mask (file_write fd address size) true s1 m
                (suspend-Next s v).inv e;
        },
      )

formatted-Inv :
    (small heap : ℕ) (text : List ℕ) (s : ThreadStore) → Inv s → Inv (formatted small heap text s).0
unfolding write_memory
formatted-Inv small heap text s v = elim (Bool-cases (ltb (length text) small_buffer_size)) [
  | inl e ↦ rw e (machine-Next s v _).inv
  | inr e ↦
      rw e
        (machine-Next (write_memory small (stored small_buffer_size text) s)
          (machine-Next s v _).inv _).inv
]

formatted-initialized :
    (small heap : ℕ) (text : List ℕ) (s : ThreadStore)
    → (formatted small heap text s).0.machine.initialized ≡ s.machine.initialized
unfolding write_memory
formatted-initialized small heap text s = elim (Bool-cases (ltb (length text) small_buffer_size)) [
  | inl e ↦ rw e refl
  | inr e ↦ rw e refl
]

-- In a store with the invariant and an initialised machine, VMFilePrint of a text that fits into a
-- message, to a descriptor below 2^32, where the second call of vsnprintf, if the text has 256 bytes
-- or more, formats the same text, as it does for a format without arguments, sends one request to write, registered for the calling thread, and
-- waits for its reply. To serve the request is to write the text, if it has less than 256 bytes. Of a
-- longer text it is to write all but the last byte, and a zero byte in the place of that one.
pub vm_file_print-IsWritten :
    {World : Type 0} (os : Os World) (small heap fd : ℕ) (text : List ℕ) (again : Option (List ℕ))
    (s : ThreadStore)
    → Inv s
    → s.machine.initialized ≡ true
    → fd < 4294967296
    → length text + 8 ≤ payload_capacity
    → (small_buffer_size ≤ length text → again ≡ some text)
    → (message : Message) × (m : Machine) × IsWritten os fd
        (if ltb (length text) small_buffer_size
          then text
          else take (length text - 1) text ++ 0 ∷ [])
        (formatted small heap text s).0
        message
        m
        (vm_file_print small heap fd text again s)
unfolding vm_file_print
vm_file_print-IsWritten {World} os small heap fd text again s v ready hf hs same =
    subst
      (λ f.
        (message : Message) × (m : Machine) × IsWritten os fd bytes (formatted small heap text s).0
          message m (write_text fd f))
      (sym (format_text-formatted small heap text again s same))
      (subst
        (λ b.
          (message : Message) × (m : Machine) × IsWritten os fd b (formatted small heap text s).0
            message m
            (vm_file_write fd (some (formatted small heap text s).1) (some (length text))
              (formatted small heap text s).0))
        (printed_lem small heap text s)
        (vm_file_write-IsWritten os fd (formatted small heap text s).1 (length text)
          (formatted small heap text s).0 (formatted-Inv small heap text s v)
          (formatted-initialized small heap text s ∙ ready) hf hs))
  where
    bytes : List ℕ
    bytes =
        if ltb (length text) small_buffer_size then text else take (length text - 1) text ++ 0 ∷ []

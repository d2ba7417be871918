-- ===== src/Api/Print.antt =====
-- VirtualMachineUtils.c: VMFilePrint. The bytes that the format gives, without the zero byte at their
-- end, are an argument; so are what the second vsnprintf formats, and the addresses of the two buffers.
use project.Prelude.{
  ℕ, zero, suc, Option, none, some, List, [], ◌∷◌, ◌++◌, ltb, if◌then◌else◌, length, take,
}
use project.Vm.Data.{ThreadStore}
use project.Vm.Run.{M, Run, undefined}
use project.Vm.Reply.{write_bytes}
use project.Api.Call.{Reply}
use project.Api.Files.{vm_file_write}

abbrev pub small_buffer_size : ℕ
small_buffer_size = 256

-- What vsnprintf stores in a buffer of `size` bytes.
unfoldable pub stored : ℕ → List ℕ → List ℕ
stored zero text = []
stored (suc size) text = take size text ++ 0 ∷ []

unfoldable pub write_memory : ℕ → List ℕ → ThreadStore → ThreadStore
write_memory address bytes s = record s {
  machine = record s.machine { memory = write_bytes address bytes s.machine.memory };
}

-- The second call of vsnprintf, for the list of arguments that the first call has used up. What it
-- formats is `again`: `none` if it reads an argument, which is undefined. It stores as much as there is
-- room for in as many bytes as the text has, without the one more that is allocated.
abbrev pub format_again : ℕ → ℕ → Option (List ℕ) → ThreadStore → Option (ThreadStore × ℕ × ℕ)
format_again heap size none s = none
format_again heap size (some text) s =
    some (write_memory heap (stored size text) s, heap, length text)

-- The store with the text in one of the two buffers, the address of that buffer, and SizeRequired.
unfoldable pub format_text :
    ℕ → ℕ → List ℕ → Option (List ℕ) → ThreadStore → Option (ThreadStore × ℕ × ℕ)
format_text small heap text again s =
    let s1 = write_memory small (stored small_buffer_size text) s in
    if ltb (length text) small_buffer_size
    then some (s1, small, length text)
    else format_again heap (length text) again s1

abbrev pub write_text : ℕ → Option (ThreadStore × ℕ × ℕ) → Run Reply
write_text fd none = undefined
write_text fd (some (s, buffer, size)) = vm_file_write fd (some buffer) (some size) s

unfoldable pub vm_file_print : ℕ → ℕ → ℕ → List ℕ → Option (List ℕ) → M Reply
vm_file_print small heap fd text again s = write_text fd (format_text small heap text again s)

-- ===== src/Machine/Data.antt =====
-- The data of Machine.cpp: messages, pending callbacks and the static variables.
use project.Prelude.{ℕ, List, [], ◌∷◌, Option, none, some, Bool, ◌==◌, if◌then◌else◌}

-- MACHINE_REQUEST_*
abbrev pub request_none : ℕ
request_none = 1

abbrev pub request_open : ℕ
request_open = 2

abbrev pub request_read : ℕ
request_read = 3

abbrev pub request_write : ℕ
request_write = 4

abbrev pub request_seek : ℕ
request_seek = 5

abbrev pub request_close : ℕ
request_close = 6

abbrev pub request_terminate : ℕ
request_terminate = 7

-- `DPayload` starts at byte 12 of the buffer of MACHINE_MAX_MESSAGE_SIZE bytes.
abbrev pub payload_capacity : ℕ
payload_capacity = 65524

-- A signal set: the signals that it holds.
abbrev pub SigSet : Type 0
SigSet = ℕ → Bool

-- TMachineFileCallback: the one callback that the virtual machine passes.
pub data FileCallback : Type 0 where
  machine_file_io_callback : FileCallback

-- SMachinePendingCallback. A pointer is an address, and NULL is `none`.
pub record PendingCallback : Type 0 where
  pub callback : Option FileCallback
  pub calldata : Option ℕ
  pub destination : Option ℕ

-- SMachineRequest: the payload holds the bytes that the sender wrote.
pub record Message : Type 0 where
  pub kind : ℕ
  pub request_id : ℕ
  pub payload : List ℕ

-- The static variables of Machine.cpp, the mask of blocked signals, the request channel, and the
-- memory of the process by bytes.
pub record Machine : Type 0 where
  pub initialized : Bool
  pub mask : SigSet
  pub request_id : ℕ
  pub pending : List (ℕ × PendingCallback)
  pub requests : List Message
  pub alarm : Option ℕ
  pub memory : ℕ → ℕ

-- std::map: find, operator[] = and erase.
unfoldable pub find : ℕ → List (ℕ × PendingCallback) → Option PendingCallback
find k [] = none
find k ((j, c) ∷ m) = if j == k then some c else find k m

unfoldable pub insert :
    ℕ → PendingCallback → List (ℕ × PendingCallback) → List (ℕ × PendingCallback)
insert k c [] = (k, c) ∷ []
insert k c ((j, d) ∷ m) = if j == k then (k, c) ∷ m else (j, d) ∷ insert k c m

unfoldable pub erase : ℕ → List (ℕ × PendingCallback) → List (ℕ × PendingCallback)
erase k [] = []
erase k ((j, d) ∷ m) = if j == k then erase k m else (j, d) ∷ erase k m

-- ===== src/Spec/Replies.antt =====
-- Machine.cpp and UtilityFunctions.cpp: what the reply to a request does for the thread that waits.
use project.Prelude.{
  true, leb, arith, ℕ, ◌+◌, ◌<◌, ◌≡◌, refl, ap, inl, inr, false, none, some, List, [], ◌∷◌, ◌++◌,
  arith, ◌==◌, Bool-cases, update, length, take, ==_refl, update_self, ltb_of_lt,
}
use project.Machine.Data.{
  request_read, machine_file_io_callback, PendingCallback, Message, Machine, find, erase,
}
use project.Machine.Codec.{set_int, get_int-set_int, is_negative}
use project.Machine.Requests.{read_bytes}
use project.Machine.RoundTrip.{drop-set_int}
use project.Vm.Data.{ThreadStore}
use project.Vm.Tcb.{set_file_io_result, set_is_waiting_on_io}
use project.Vm.Timer
use project.Vm.Reply.{write_bytes, copy_data, handle_reply}

find-erase : (k : ℕ) (m : List (ℕ × PendingCallback)) → find k (erase k m) ≡ none
unfolding find erase
find-erase k [] = refl
find-erase k ((j, d) ∷ m) = elim (Bool-cases (j == k)) [
  | inl e ↦ rw e (find-erase k m)
  | inr e ↦ rw (e, e) (find-erase k m)
]

pub write_bytes-below :
    (a i : ℕ) (bytes : List ℕ) (memory : ℕ → ℕ) → i < a → write_bytes a bytes memory i ≡ memory i
unfolding write_bytes
write_bytes-below a i [] memory h = refl
write_bytes-below a i (b ∷ bytes) memory h =
    ground (arith, write_bytes-below (a + 1) i bytes (update memory a b) (omega (arith, h)))

pub read_bytes-write_bytes :
    (a : ℕ) (bytes : List ℕ) (memory : ℕ → ℕ)
    → read_bytes (length bytes) a (write_bytes a bytes memory) ≡ bytes
unfolding read_bytes write_bytes
read_bytes-write_bytes a [] memory = refl
read_bytes-write_bytes a (b ∷ bytes) memory = rw (
  write_bytes-below (a + 1) a bytes (update memory a b) (omega arith),
  update_self memory a b,
  read_bytes-write_bytes (a + 1) bytes (update memory a b),
)

take-length : {A : Type 0} (l : List A) → take (length l) l ≡ l
take-length [] = refl
take-length (x ∷ l) = ap (λ k. x ∷ k) (take-length l)

not_negative : (n : ℕ) → n < 2147483648 → is_negative n ≡ false
not_negative n h = ground arith

-- The thread `t` has the data of its read at `address`, its result is their number, and it waits for
-- no reply; the request is not pending any more.
pub record IsDelivered (id t address : ℕ) (bytes : List ℕ) (s : ThreadStore) : Type 0 where
  pub data_there : read_bytes (length bytes) address s.machine.memory ≡ bytes
  pub result_there : (s.tcb t).file_io_result ≡ length bytes
  pub runs_again : (s.tcb t).waiting_on_io ≡ false
  pub handled : find id s.machine.pending ≡ none

abbrev pub read_reply : ℕ → List ℕ → Message
read_reply id bytes = record {
  kind = request_read;
  request_id = id;
  payload = set_int (length bytes) ++ bytes;
}

abbrev pub reader : ℕ → ℕ → PendingCallback
reader t address = record {
  callback = some machine_file_io_callback;
  calldata = some t;
  destination = some address;
}

-- The reply to a pending read of a thread, with a number of bytes from 1 to 2^31 - 1, leads to a
-- store in which exactly these bytes are at the address that the thread gave, its result is their
-- number, it waits no longer for the reply, and the request is no longer pending.
pub handle_reply-IsDelivered :
    (id t address : ℕ) (bytes : List ℕ) (s : ThreadStore)
    → 0 < length bytes
    → length bytes < 2147483648
    → find id s.machine.pending ≡ some (reader t address)
    → (u : ThreadStore) × (handle_reply (read_reply id bytes) s ≡ some u)
      × IsDelivered id t address bytes u
unfolding handle_reply copy_data
handle_reply-IsDelivered id t address bytes s h k e = (
  Timer.machine_file_io_callback t (length bytes) (record s { machine = m }),
  rw (
    e,
    get_int-set_int (length bytes) bytes (omega arith),
    ltb_of_lt 0 (length bytes) h,
    not_negative (length bytes) k,
    drop-set_int (length bytes) bytes,
    leb_refl (length bytes),
    take-length bytes,
  ),
  unfold Timer.machine_file_io_callback set_file_io_result set_is_waiting_on_io in
      record {
        data_there = read_bytes-write_bytes address bytes s.machine.memory;
        result_there = rw (==_refl t) refl;
        runs_again = rw (==_refl t) refl;
        handled = find-erase id s.machine.pending;
      },
)
  where
    leb_refl : (n : ℕ) → leb n n ≡ true
    leb_refl n = ground arith

    m : Machine
    m = record s.machine {
      pending = erase id s.machine.pending;
      memory = write_bytes address bytes s.machine.memory;
    }

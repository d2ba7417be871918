-- ===== src/Machine/Poll.antt =====
-- Machine.cpp: the two loops of the helper process over the polled descriptors.
use mathlib.Core.Option
use project.Prelude.{
  ℕ, zero, suc, ◌+◌, ◌≤◌, ◌≡◌, refl, inl, inr, Bool, true, false, ◌&&◌, ◌||◌, Option, none, some,
  List, [], ◌∷◌, ◌++◌, arith, leb, ◌==◌, if◌then◌else◌, Bool-cases, eq_of_==, length, take, ==_refl,
}
use project.Machine.Data.{Message, payload_capacity}
use project.Machine.Codec.{set_int}
use project.Machine.Server.{PendingRead, Os, polls}

-- The first pending read of a descriptor, and the reads without it.
unfoldable pub take_read : ℕ → List PendingRead → Option (PendingRead × List PendingRead)
take_read fd [] = none
take_read fd (r ∷ rs) =
    let rest =
      Option.map (λ (found : PendingRead × List PendingRead). (found.0, r ∷ found.1))
        (take_read fd rs) in
    if r.file_descriptor == fd then some (r, rs) else rest

abbrev pub reads : ℕ → List PendingRead → Bool
reads fd [] = false
reads fd (r ∷ rs) = r.file_descriptor == fd || reads fd rs

-- The bytes that read stores, if it does not fail.
abbrev pub bytes_read : ℕ → Option (List ℕ) → Option (List ℕ)
bytes_read size none = none
bytes_read size (some bytes) = some (take size bytes)

-- Whether they fit into the buffer, behind the result.
abbrev pub fits : Option (List ℕ) → Bool
fits none = true
fits (some bytes) = leb (length bytes + 4) payload_capacity

-- The data of a read that succeeds follow the result.
abbrev pub result_payload : Option (List ℕ) → List ℕ
result_payload none = set_int 4294967295
result_payload (some bytes) = set_int (length bytes) ++ bytes

abbrev pub read_reply : ℕ → PendingRead → Option (List ℕ) → Message
read_reply kind r bytes = record {
  kind = kind;
  request_id = r.request_id;
  payload = result_payload bytes;
}

module _ {World : Type 0} (os : Os World) where
  abbrev pub Round : Type 0
  Round = World × List PendingRead × List Message

  abbrev pub perform_pending :
      ℕ → PendingRead → List PendingRead → List Message → World × Option (List ℕ) → Option Round
  perform_pending kind r rest out (w, bytes) =
      if fits (bytes_read r.size bytes)
      then some (w, rest, out ++ read_reply kind r (bytes_read r.size bytes) ∷ [])
      else none

  -- The reply goes out with the kind that the buffer holds; `none` means that read overruns the buffer.
  abbrev pub perform_read : ℕ → Option (PendingRead × List PendingRead) → Round → Option Round
  perform_read kind none round = some round
  perform_read kind (some (r, rest)) (w, rs, out) =
      perform_pending kind r rest out (os.read_file r.file_descriptor r.size w)

  -- One read for each descriptor that has an event.
  unfoldable pub serve_events : ℕ → (ℕ → Bool) → List ℕ → Round → Option Round
  serve_events kind revents [] round = some round
  serve_events kind revents (fd ∷ fds) round =
      Option.bind
        (if revents fd then perform_read kind (take_read fd round.1) round else some round)
        (serve_events kind revents fds)

pub length-take-le : (n : ℕ) (bytes : List ℕ) → length (take n bytes) ≤ n
length-take-le zero bytes = omega arith
length-take-le (suc n) [] = omega arith
length-take-le (suc n) (b ∷ bytes) = omega (arith, length-take-le n bytes)

-- A read of a size that fits into the buffer does not overrun it.
pub fits-bytes_read :
    (size : ℕ) (bytes : Option (List ℕ))
    → size + 4 ≤ payload_capacity
    → fits (bytes_read size bytes) ≡ true
fits-bytes_read size none h = refl
fits-bytes_read size (some bytes) h = ground (arith, length-take-le size bytes, h)

-- A descriptor that no read waits for is polled no longer.
unfoldable pub clean_fds : List PendingRead → List ℕ → List ℕ
clean_fds rs [] = []
clean_fds rs (fd ∷ fds) = let rest = clean_fds rs fds in if reads fd rs then fd ∷ rest else rest

-- After the clean-up a descriptor is polled exactly if it was polled and a read waits for it.
pub polls-clean_fds :
    (fd : ℕ) (rs : List PendingRead) (fds : List ℕ)
    → polls fd (clean_fds rs fds) ≡ (polls fd fds && reads fd rs)
unfolding clean_fds polls
polls-clean_fds fd rs [] = refl
polls-clean_fds fd rs (g ∷ fds) = elim (Bool-cases (g == fd)) [
  | inl e ↦
      rw (e, eq_of_== g fd e)
        (elim (Bool-cases (reads fd rs)) [
          | inl r ↦ rw (r, ==_refl fd)
          | inr r ↦ rw (r, polls-clean_fds fd rs fds, r) (ground arith)
        ])
  | inr e ↦ rw e (elim (Bool-cases (reads g rs)) [
    | inl r ↦ rw (r, e) (polls-clean_fds fd rs fds)
    | inr r ↦ rw r (polls-clean_fds fd rs fds)
  ])
]

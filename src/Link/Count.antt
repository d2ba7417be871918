-- ===== src/Link/Count.antt =====
-- Machine.cpp: requests by their identifiers, on both channels, with the helper process, and among
-- the pending callbacks.
use mathlib.Core.Option
use project.Prelude.{
  ℕ, ◌+◌, ◌≡◌, refl, inl, inr, Bool, true, false, not, ◌&&◌, Option, none, some, List, [], ◌∷◌,
  ◌++◌, arith, ◌==◌, if◌then◌else◌, Bool-cases, All,
}
use project.Machine.Data.{
  request_terminate, FileCallback, PendingCallback, Message, find, insert, erase,
}
use project.Machine.Server.{PendingRead}
use project.Machine.Poll.{take_read}

abbrev pub counts : Bool → ℕ
counts true = 1
counts false = 0

-- A request to terminate has no reply.
abbrev pub wants_reply : Message → Bool
wants_reply q = not (q.kind == request_terminate)

abbrev pub asked : ℕ → List Message → ℕ
asked id [] = 0
asked id (q ∷ qs) = counts (q.request_id == id && wants_reply q) + asked id qs

abbrev pub waits : ℕ → List PendingRead → ℕ
waits id [] = 0
waits id (r ∷ rs) = counts (r.request_id == id) + waits id rs

abbrev pub answered_by : ℕ → List Message → ℕ
answered_by id [] = 0
answered_by id (q ∷ qs) = counts (q.request_id == id) + answered_by id qs

abbrev pub is_caller : Option FileCallback → Option ℕ → Bool
is_caller none t = false
is_caller (some f) none = false
is_caller (some f) (some t) = true

-- The thread that is registered for a reply.
abbrev pub caller_by : Option FileCallback → Option ℕ → Option ℕ
caller_by none t = none
caller_by (some f) t = t

abbrev pub caller_of : Option PendingCallback → Option ℕ
caller_of none = none
caller_of (some c) = caller_by c.callback c.calldata

-- Whether a caller is registered under the identifier.
abbrev pub owed_to : Option PendingCallback → ℕ
owed_to none = 0
owed_to (some c) = counts (is_caller c.callback c.calldata)

abbrev pub owed : ℕ → List (ℕ × PendingCallback) → ℕ
owed id pending = owed_to (find id pending)

-- A thread that is registered is owed one reply.
pub caller_of-owed : (o : Option PendingCallback) (t : ℕ) → caller_of o ≡ some t → owed_to o ≡ 1
caller_of-owed none t e = absurd (cc)
caller_of-owed (some c) t e = from c.callback c.calldata e
  where
    from :
        (f : Option FileCallback) (d : Option ℕ)
        → caller_by f d ≡ some t
        → counts (is_caller f d) ≡ 1
    from none d k = absurd (cc)
    from (some f) none k = absurd (cc)
    from (some f) (some u) k = refl

pub asked-append : (id : ℕ) (qs rs : List Message) → asked id (qs ++ rs) ≡ asked id qs + asked id rs
asked-append id [] rs = omega arith
asked-append id (q ∷ qs) rs = omega (arith, asked-append id qs rs)

pub answered_by-append :
    (id : ℕ) (qs rs : List Message)
    → answered_by id (qs ++ rs) ≡ answered_by id qs + answered_by id rs
answered_by-append id [] rs = omega arith
answered_by-append id (q ∷ qs) rs = omega (arith, answered_by-append id qs rs)

pub waits-append :
    (id : ℕ) (qs rs : List PendingRead) → waits id (qs ++ rs) ≡ waits id qs + waits id rs
waits-append id [] rs = omega arith
waits-append id (q ∷ qs) rs = omega (arith, waits-append id qs rs)

pub find-insert_lem :
    (j k : ℕ) (c : PendingCallback) (m : List (ℕ × PendingCallback))
    → find j (insert k c m) ≡ (if k == j then some c else find j m)
unfolding find insert
find-insert_lem j k c [] = refl
find-insert_lem j k c ((i, d) ∷ m) = ground (arith, find-insert_lem j k c m)

pub find-erase_lem :
    (j k : ℕ) (m : List (ℕ × PendingCallback))
    → find j (erase k m) ≡ (if k == j then none else find j m)
unfolding find erase
find-erase_lem j k [] = ground arith
find-erase_lem j k ((i, d) ∷ m) = ground (arith, find-erase_lem j k m)

module _ (P : PendingRead → Type 0) where
  -- The read that is taken leaves the list, and nothing else does.
  abbrev pub TakenRead : List PendingRead → Option (PendingRead × List PendingRead) → Type 0
  TakenRead rs none = Unit
  TakenRead rs (some (r, left)) =
      ((id : ℕ) → waits id rs ≡ counts (r.request_id == id) + waits id left) × P r × All P left

  pub take_read-TakenRead :
      (fd : ℕ) (rs : List PendingRead) → All P rs → TakenRead rs (take_read fd rs)
  unfolding take_read
  take_read-TakenRead fd [] h = tt
  take_read-TakenRead fd (r ∷ rs) h = elim (Bool-cases (r.file_descriptor == fd)) [
    | inl e ↦ rw e ((λ id. refl), h.0, h.1)
    | inr e ↦ rw e (later (take_read fd rs) (take_read-TakenRead fd rs h.1))
  ]
    where
      later :
          (o : Option (PendingRead × List PendingRead))
          → TakenRead rs o
          → TakenRead
              (r ∷ rs)
              (Option.map (λ (found : PendingRead × List PendingRead). (found.0, r ∷ found.1)) o)
      later none k = tt
      later (some (q, left)) k = ((λ id. omega (arith, k.0 id)), k.1, (h.0, k.2))

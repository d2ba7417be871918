-- ===== src/Link/Reads.antt =====
-- Machine.cpp: the reads that wait with the helper process.
use mathlib.Core.Option
use project.Prelude.{
  ℕ, ◌+◌, ◌≡◌, refl, subst, ◌⊎◌, inl, inr, true, false, ◌||◌, Option, none, some, List, [], ◌∷◌,
  ◌++◌, arith, ◌==◌, Bool-cases, eq_of_==, length,
}
use project.Machine.Server.{PendingRead, Server, polls, add_read}
use project.Machine.Poll.{take_read, reads, clean_fds, polls-clean_fds}

-- Every descriptor that a read waits for is polled.
abbrev pub Covers : List ℕ → List PendingRead → Type 0
Covers fds rs = (fd : ℕ) → reads fd rs ≡ true → polls fd fds ≡ true

-- A read has left the list, or none waits for the descriptor.
abbrev pub TakesOut : ℕ → List PendingRead → Option (PendingRead × List PendingRead) → Type 0
TakesOut fd rs none = reads fd rs ≡ false
TakesOut fd rs (some (r, left)) =
    (length rs ≡ length left + 1) × ((g : ℕ) → reads g left ≡ true → reads g rs ≡ true)

pub take_read-TakesOut : (fd : ℕ) (rs : List PendingRead) → TakesOut fd rs (take_read fd rs)
unfolding take_read
take_read-TakesOut fd [] = refl
take_read-TakesOut fd (r ∷ rs) = elim (Bool-cases (r.file_descriptor == fd)) [
  | inl e ↦ rw e (omega arith, λ g h. ground (arith, h))
  | inr e ↦ rw e (from e (take_read fd rs) (take_read-TakesOut fd rs))
]
  where
    from :
        (r.file_descriptor == fd) ≡ false
        → (o : Option (PendingRead × List PendingRead)) → TakesOut fd rs o
        → TakesOut fd
            (r ∷ rs)
            (Option.map (λ (found : PendingRead × List PendingRead). (found.0, r ∷ found.1)) o)
    from e none h = rw e h
    from e (some (x, left)) (n, h) = (omega (arith, n), λ g k. ground (arith, h g, k))

polls-append : (fd : ℕ) (fds gs : List ℕ) → polls fd (fds ++ gs) ≡ (polls fd fds || polls fd gs)
unfolding polls
polls-append fd [] gs = refl
polls-append fd (g ∷ fds) gs = ground (arith, polls-append fd fds gs)

reads-append :
    (fd : ℕ) (rs qs : List PendingRead) → reads fd (rs ++ qs) ≡ (reads fd rs || reads fd qs)
reads-append fd [] qs = refl
reads-append fd (r ∷ rs) qs = ground (arith, reads-append fd rs qs)

-- A descriptor with a read on the longer list.
last_read :
    (fd : ℕ) (rs : List PendingRead) (r : PendingRead)
    → reads fd (rs ++ r ∷ []) ≡ true
    → (reads fd rs ≡ true) ⊎ ((r.file_descriptor == fd) ≡ true)
last_read fd rs r k = ground (arith, reads-append fd rs (r ∷ []), k)

pub add_read-Covers :
    (r : PendingRead) (v : Server)
    → Covers v.poll_fds v.pending_reads
    → Covers (add_read r v).poll_fds (add_read r v).pending_reads
unfolding add_read
add_read-Covers r v h fd k = elim (Bool-cases (polls r.file_descriptor v.poll_fds)) [
  | inl e ↦ rw e (old e (last_read fd v.pending_reads r k))
  | inr e ↦
      rw (e, polls-append fd v.poll_fds (r.file_descriptor ∷ []))
        (new (last_read fd v.pending_reads r k))
]
  where
    old :
        polls r.file_descriptor v.poll_fds ≡ true
        → (reads fd v.pending_reads ≡ true) ⊎ ((r.file_descriptor == fd) ≡ true)
        → polls fd v.poll_fds ≡ true
    old e (inl a) = h fd a
    old e (inr b) = subst (λ g. polls g v.poll_fds ≡ true) (eq_of_== r.file_descriptor fd b) e

    new :
        (reads fd v.pending_reads ≡ true) ⊎ ((r.file_descriptor == fd) ≡ true)
        → (polls fd v.poll_fds || polls fd (r.file_descriptor ∷ [])) ≡ true
    new (inl a) = rw (h fd a)
    new (inr b) = unfold polls in ground (arith, b)

pub clean_fds-Covers :
    (rs : List PendingRead) (fds : List ℕ) → Covers fds rs → Covers (clean_fds rs fds) rs
clean_fds-Covers rs fds h fd k = rw (polls-clean_fds fd rs fds, h fd k, k)

-- ===== src/Quiet/Files.antt =====
-- VirtualMachine.cpp: the requests of the calls on files.
use project.Prelude.{
  ℕ, ◌+◌, ◌≤◌, ◌≡◌, refl, sym, ap, ◌∙◌, ◌≢◌, ◌⊎◌, inl, inr, Bool, true, false, Option, none, some,
  List, length, All,
}
use project.Machine.Data.{SigSet, Machine, FileCallback, machine_file_io_callback, payload_capacity}
use project.Machine.Codec.{is_negative}
use project.Machine.Requests
use project.Vm.Data.{ThreadStore}
use project.Vm.Run.{Run, done, switched, undefined, unfinished, aborted}
use project.Api.Call.{suspend, answer}
use project.Api.Files.{
  Request, sent, wait_for_request, file_result, perform, read_with, open_with, write_with,
  vm_file_seek, vm_file_read, vm_file_close, vm_file_open, vm_file_write,
}
use project.Link.Defs.{IsFile, Asks, IsInt, opens, reads, writes, seeks, closes}
use project.Spec.Kept.{io}
use project.Quiet.Run.{view, Tame}
use project.Quiet.Talk.{
  Talk, asks, Still-of, Stills, Talks, Talks-bind, Talks-Stills, answer-Stills, choose-Stills,
  choose-Talks, IsQuiet-of, suspended-Talks, Stills-Tame,
}
use project.Quiet.Schedule.{on_io, on_io-io, on_io-machine, wait_current_thread_on_io-Tame}

abbrev cb : Option FileCallback
cb = some machine_file_io_callback

file_result-Stills :
    (saved : SigSet) (c : ℕ) (stores : Bool) (u : ThreadStore)
    → Stills u (file_result saved c stores u)
unfolding file_result
file_result-Stills saved c stores u =
    choose-Stills u (is_negative (u.tcb c).file_io_result) _ _ (answer-Stills _ _ _ u)
      (answer-Stills _ _ _ u)

module _ (u : ThreadStore) (m : Machine) {r : Option Machine}
    (a : Asks u.current_thread u.machine r) (f : IsFile a) (e : r ≡ some m) where
  asking : ThreadStore
  asking = on_io (record u { machine = m })

  waiter :
      (t : ℕ)
      → (io u t ≡ true) ⊎ (u.current_thread ≡ t)
      → (io u t ≡ true) ⊎ ((u.current_thread ≡ t) × IsFile a)
  waiter t (inl h) = inl h
  waiter t (inr h) = inr (h, f)

  asked_view : (s : ThreadStore) → view s ≡ view asking → Talk u s
  unfolding asking
  asked_view s h =
      asks u m (Still-of u u refl) a e
        (IsQuiet-of (record u { machine = m }) s
          (ap (λ v. v.0) h ∙ on_io-machine (record u { machine = m })))
        (λ t w. waiter t (on_io-io (record u { machine = m }) t (sym (ap (λ v. v.1 t) h) ∙ w)))

  -- The current thread has made a request, and waits.
  asked-Talks : {A : Type 0} (x : Run A) → Tame (view asking) x → Talks u x
  asked-Talks (done b s) h = asked_view s h
  asked-Talks (switched t s k) (h, g) =
      (asked_view s h, λ w. Talks-Stills w (k w) (Stills-Tame w (k w) (g w)))
  asked-Talks undefined h = tt
  asked-Talks unfinished h = tt
  asked-Talks aborted h = tt

perform-Talks :
    (saved : SigSet) (request : Request) (stores : Bool) (u : ThreadStore)
    → (a : Asks u.current_thread u.machine (request cb (some u.current_thread) u.machine))
    → IsFile a
    → Talks u (perform saved request stores u)
unfolding perform wait_for_request asking
perform-Talks saved request stores u a f =
    Talks-bind u (sent u (request cb (some u.current_thread) u.machine)) _
      (started (request cb (some u.current_thread) u.machine) a f)
      (λ x w. file_result-Stills saved u.current_thread stores w)
  where
    started :
        (o : Option Machine) (a : Asks u.current_thread u.machine o) → IsFile a → Talks u (sent u o)
    started none k h = tt
    started (some m) k h =
        asked-Talks u m k h refl _ (wait_current_thread_on_io-Tame (record u { machine = m }))

answers :
    (saved : SigSet) (status : ℕ) (out : Option ℕ) (u : ThreadStore)
    → Talks u (answer saved status out u)
answers saved status out u = Talks-Stills u _ (answer-Stills saved status out u)

pub vm_file_seek-Talks :
    (fd offset whence : ℕ) (r : Bool) (s : ThreadStore)
    → IsInt fd
    → IsInt offset
    → IsInt whence
    → Talks s (vm_file_seek fd offset whence r s)
unfolding vm_file_seek
vm_file_seek-Talks fd offset whence r s hf ho hw = suspended-Talks s _ (
    choose-Talks (suspend s).0 r _ _
      (perform-Talks _ (Requests.file_seek fd offset whence) true _
        (seeks fd offset whence hf ho hw) tt)
      (answers _ _ _ _))

pub vm_file_close-Talks : (fd : ℕ) (s : ThreadStore) → IsInt fd → Talks s (vm_file_close fd s)
unfolding vm_file_close
vm_file_close-Talks fd s hf =
    suspended-Talks s _ (perform-Talks _ (Requests.file_close fd) false _ (closes fd hf) tt)

pub vm_file_read-Talks :
    (fd : ℕ) (address size : Option ℕ) (s : ThreadStore)
    → IsInt fd
    → ((n : ℕ) → size ≡ some n → n + 4 ≤ payload_capacity)
    → Talks s (vm_file_read fd address size s)
unfolding vm_file_read
vm_file_read-Talks fd address size s hf hs =
    suspended-Talks s _ (from address size hs (suspend s).0)
  where
    from :
        (address size : Option ℕ)
        → ((n : ℕ) → size ≡ some n → n + 4 ≤ payload_capacity)
        → (u : ThreadStore) → Talks u (read_with (suspend s).1 fd address size u)
    from none size h u = answers _ _ _ u
    from (some a) none h u = answers _ _ _ u
    from (some a) (some n) h u =
        perform-Talks _ (Requests.file_read fd a n) true u (reads fd a n hf (h n refl)) tt

pub vm_file_write-Talks :
    (fd : ℕ) (address size : Option ℕ) (s : ThreadStore)
    → IsInt fd
    → ((n : ℕ) → size ≡ some n → n + 8 ≤ payload_capacity)
    → Talks s (vm_file_write fd address size s)
unfolding vm_file_write
vm_file_write-Talks fd address size s hf hs =
    suspended-Talks s _ (from address size hs (suspend s).0)
  where
    from :
        (address size : Option ℕ)
        → ((n : ℕ) → size ≡ some n → n + 8 ≤ payload_capacity)
        → (u : ThreadStore) → Talks u (write_with (suspend s).1 fd address size u)
    from none size h u = answers _ _ _ u
    from (some a) none h u = answers _ _ _ u
    from (some a) (some n) h u =
        perform-Talks _ (Requests.file_write fd a n) true u (writes fd a n hf (h n refl)) tt

pub vm_file_open-Talks :
    (filename : Option (List ℕ)) (flags mode : ℕ) (r : Bool) (s : ThreadStore)
    → ((l : List ℕ) → filename ≡ some l → All (λ b. b ≢ 0) l × (length l + 9 ≤ payload_capacity))
    → IsInt flags
    → IsInt mode
    → Talks s (vm_file_open filename flags mode r s)
unfolding vm_file_open
vm_file_open-Talks filename flags mode r s h hf hm =
    suspended-Talks s _ (from filename r h (suspend s).0)
  where
    from :
        (filename : Option (List ℕ)) (r : Bool)
        → ((l : List ℕ)
            → filename ≡ some l
            → All (λ b. b ≢ 0) l × (length l + 9 ≤ payload_capacity))
        → (u : ThreadStore) → Talks u (open_with (suspend s).1 filename flags mode r u)
    from none r h u = answers _ _ _ u
    from (some l) false h u = answers _ _ _ u
    from (some l) true h u =
        perform-Talks _ (Requests.file_open l flags mode) true u
          (opens l flags mode (h l refl).0 hf hm (h l refl).1) tt

-- ===== src/Safety/Reply.antt =====
-- Machine.cpp: the reply handler on the store.
use mathlib.Core.Option
use project.Prelude.{ℕ, Option, none, some, List, [], ◌∷◌}
use project.Machine.Data.{
  FileCallback, machine_file_io_callback, PendingCallback, Message, Machine, find, erase,
}
use project.Machine.Codec.{get_int}
use project.Vm.Data.{ThreadStore}
use project.Vm.Reply.{
  reply_signal_handler, handle_reply, copy_data, finish_reply, reply_with, reply_found, call_back,
}
use project.Spec.Run.{Maybe}
use project.Safety.Inv.{Inv}
use project.Safety.Safe.{Next, Next-trans, Next-refl}
use project.Safety.Steps.{machine-Next}
use project.Safety.Timer.{machine_file_io_callback-Next}

module _ (s : ThreadStore) (v : Inv s) where
  call_back-Next :
      (f : Option FileCallback) (t : Option ℕ) (result : ℕ) (m : Machine)
      → Maybe (Next s) (call_back f t result (record s { machine = m }))
  call_back-Next none t result m = tt
  call_back-Next (some machine_file_io_callback) none result m = tt
  call_back-Next (some machine_file_io_callback) (some t) result m =
      let n = machine-Next s v m in
      Next-trans n (machine_file_io_callback-Next t result (record s { machine = m }) n.inv)

  finish_reply-Next :
      (c : PendingCallback) (result : ℕ) (o : Option Machine)
      → Maybe (Next s) (finish_reply c result s o)
  finish_reply-Next c result none = tt
  finish_reply-Next c result (some m) = call_back-Next c.callback c.calldata result m

  reply_with-Next :
      (q : Message) (c : PendingCallback) (o : Option ℕ) → Maybe (Next s) (reply_with q c o s)
  reply_with-Next q c none = tt
  reply_with-Next q c (some result) = finish_reply-Next c result (
      copy_data q result c.destination
        (record s.machine { pending = erase q.request_id s.machine.pending }))

  pub handle_reply-Next : (q : Message) → Maybe (Next s) (handle_reply q s)
  unfolding handle_reply
  handle_reply-Next q = from (find q.request_id s.machine.pending)
    where
      from : (o : Option PendingCallback) → Maybe (Next s) (reply_found q o s)
      from none = Next-refl s v
      from (some c) = reply_with-Next q c (get_int q.payload)

pub reply_signal_handler-Next :
    (queue : List Message) (s : ThreadStore) → Inv s → Maybe (Next s) (reply_signal_handler queue s)
unfolding reply_signal_handler Option.bind
reply_signal_handler-Next [] s v = Next-refl s v
reply_signal_handler-Next (q ∷ rest) s v =
    from (handle_reply q s) (handle_reply-Next s v q) (λ u i. reply_signal_handler-Next rest u i)
  where
    after :
        (u : ThreadStore)
        → Next s u
        → (o : Option ThreadStore) → Maybe (Next u) o
        → Maybe (Next s) o
    after u n none h = tt
    after u n (some x) h = Next-trans n h

    from :
        (o : Option ThreadStore)
        → Maybe (Next s) o
        → ((u : ThreadStore) → Inv u → Maybe (Next u) (reply_signal_handler rest u))
        → Maybe (Next s) (Option.bind o (reply_signal_handler rest))
    from none h k = tt
    from (some u) n k = after u n (reply_signal_handler rest u) (k u n.inv)

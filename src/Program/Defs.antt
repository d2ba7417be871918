-- ===== src/Program/Defs.antt =====
-- VirtualMachine.cpp, UtilityFunctions.cpp and Machine.cpp together: the threads of the virtual
-- machine with their calls, interrupts and switches beside the helper process, with both channels and
-- both signals between them.
use project.Prelude.{
  ℕ, ◌<◌, ◌≡◌, Bool, true, false, ◌||◌, Option, none, some, List, [], ltb, length,
}
use project.Machine.Data.{Message}
use project.Machine.Server.{Os}
use project.Vm.Data.{ThreadStore}
use project.Vm.Run.{done, switched}
use project.Vm.Reply.{reply_signal_handler}
use project.System.Defs.{System, user, kernel, Call, Context, fresh}
use project.System.Defs as Systems
use project.Link.Defs.{Link, Helper}
use project.Link.Defs as Links
use project.Quiet.Exec.{IsProper}

-- The threads, whether a request is on its channel without the signal that follows it, the helper
-- process, the reply channel, and whether SIGUSR2 waits to be delivered to the virtual machine.
pub record Program (World : Type 0) : Type 0 where
  pub system : System
  pub owes_signal : Bool
  pub helper : Helper World
  pub replies : List Message
  pub reply_signal : Bool

-- The store while the threads stand: in the code of the module, and at the end or at a switch of a
-- call or an interrupt.
abbrev pub store_of : System → Option ThreadStore
store_of (user s cs) = some s
store_of (kernel (done a s) cs) = some s
store_of (kernel (switched t s k) cs) = some s
store_of (kernel _ cs) = none

abbrev pub with_store : ThreadStore → System → System
with_store s (user _ cs) = user s cs
with_store s (kernel (done a _) cs) = kernel (done a s) cs
with_store s (kernel (switched t _ k) cs) = kernel (switched t s k) cs
with_store s (kernel r cs) = kernel r cs

-- Whether a request has been put on its channel on the way.
abbrev pub has_sent : Option ThreadStore → Option ThreadStore → Bool
has_sent (some s) (some s') = ltb (length s.machine.requests) (length s'.machine.requests)
has_sent _ _ = false

abbrev pub moved : {World : Type 0} → Program World → System → Program World
moved p b = record p { system = b; owes_signal = has_sent (store_of p.system) (store_of b) }

abbrev pub as_link : {World : Type 0} → ThreadStore → Program World → Link World
as_link s p = record {
  store = s;
  owes_signal = p.owes_signal;
  helper = p.helper;
  replies = p.replies;
}

-- The steps of the threads: the replies come from the helper process.
abbrev pub IsOurs : {a b : System} → Systems.Step a b → Type 0
IsOurs (Systems.call x s cs i h) = IsProper x
IsOurs (Systems.timer s cs) = Unit
IsOurs (Systems.reply t result s cs) = ⊥
IsOurs (Systems.return s cs) = Unit
IsOurs (Systems.switch t s k cs) = Unit

-- The identifiers have not run out.
abbrev pub HasRoom : Option ThreadStore → Type 0
HasRoom none = Unit
HasRoom (some s) = s.machine.request_id < 4294967295

-- A reply is followed by its signal.
abbrev pub beside_moved : {World : Type 0} → Program World → Link World → Program World
beside_moved p l = record {
  system = with_store l.store p.system;
  owes_signal = l.owes_signal;
  helper = l.helper;
  replies = l.replies;
  reply_signal = p.reply_signal || ltb (length p.replies) (length l.replies);
}

-- SIGUSR2
abbrev pub usr2 : ℕ
usr2 = 12

module _ {World : Type 0} (os : Os World) where
  -- The threads go on once the signal is sent; replies are handled in the code of the module, if their
  -- signal is due and not blocked. The handler runs to its end in one step: the source does not block
  -- SIGALRM in it, and the runs in which that signal comes between msgrcv and the callback are left out.
  pub data Step (p : Program World) : Program World → Type 0 where
    runs :
        {b : System} (st : Systems.Step p.system b)
        → IsOurs st
        → p.owes_signal ≡ false
        → HasRoom (store_of p.system)
        → Step p (moved p b)
    beside :
        (s : ThreadStore) {l : Link World}
        → store_of p.system ≡ some s
        → (st : Links.Step os (as_link s p) l) → Links.IsBeside os st
        → Step p (beside_moved p l)
    handles :
        (s s' : ThreadStore) (cs : ℕ → Context)
        → p.system ≡ user s cs
        → p.owes_signal ≡ false
        → p.reply_signal ≡ true
        → s.machine.mask usr2 ≡ false
        → reply_signal_handler p.replies s ≡ some s'
        → Step p (record p { system = user s' cs; replies = []; reply_signal = false })

  pub data Reach (a : Program World) : Program World → Type 0 where
    here : Reach a a
    next : {b c : Program World} → Reach a b → Step b c → Reach a c

-- VMMain has just been called, and the helper process has been forked.
unfoldable pub begin : {World : Type 0} → ThreadStore → World → Program World
begin s w =
    let l = Links.start s w in
    record {
      system = user s (λ _. fresh);
      owes_signal = false;
      helper = l.helper;
      replies = [];
      reply_signal = false;
    }

-- ===== src/Tests/Link.antt =====
-- Machine.cpp: the two processes with one request on its way.
use project.Prelude.{ℕ, ◌+◌, ◌≡◌, refl, Bool, true, false, ◌&&◌, Option, none, some, [], arith}
use project.Machine.Data.{Machine, Message, request_close, machine_file_io_callback}
use project.Machine.Codec.{set_int, set_int_from, get_int, get_int_from}
use project.Machine.Signals.{suspend_signals, resume_signals}
use project.Machine.Requests.{send, file_close, add_request}
use project.Machine.Server.{polls, receive, serve, serve_close}
use project.Vm.Reply.{handle_reply}
use project.Link.Defs.{
  Link, Polled, Reach, IsUnused, start, wake, here, next, ask, notify, wakes, receives,
  receive_next, closes, requests_of, reading,
}
use project.Link.Count.{asked, waits, answered_by, owed}
use project.Link.Moves.{Handles}
use project.Link.Work.{Work}
use project.Link.Delivery.{Reach-owed, Reach-Handles, Reach-drained}
use project.Link.Wakeup.{IsNoticed, Reach-IsNoticed}
use project.Tests.Store.{machine, store}
use project.Tests.Machine.{counting}

pub unused : IsUnused machine
unused = record { initialized = refl; pending = refl; requests = refl }

-- The thread 2 closes the descriptor 3.
abbrev asking : Machine
asking = send request_close (set_int 3) (some machine_file_io_callback) (some 2) none machine

abbrev asked_link : Link ℕ
asked_link = record (start store 0) {
  store = record store { machine = asking };
  owes_signal = true;
}

asked_link-reached : Reach counting (start store 0) asked_link
unfolding start file_close
asked_link-reached = next here (ask 2 asking refl (omega arith) (closes 3 (omega arith)) refl)

abbrev quiet_poll : Polled
quiet_poll = record { revents = λ _. false; timed_out = false; parent_gone = false }

abbrev woken_link : Link ℕ
woken_link = record asked_link {
  owes_signal = false;
  helper = wake quiet_poll (record asked_link.helper { signal = true });
}

woken_link-reached : Reach counting (start store 0) woken_link
unfolding start
woken_link-reached = next (next asked_link-reached (notify refl)) (wakes quiet_poll refl)

Reach-owed_example :
    asked 1 (requests_of woken_link)
      + waits 1 woken_link.helper.server.pending_reads
      + answered_by 1 woken_link.replies
    ≡ owed 1 woken_link.store.machine.pending
Reach-owed_example = Reach-owed counting store 0 unused woken_link-reached 1

Reach-IsNoticed_example : IsNoticed asked_link
Reach-IsNoticed_example = Reach-IsNoticed counting store 0 unused asked_link-reached

abbrev no_events : ℕ → Bool
no_events fd = polls fd [] && false

Reach-drained_example :
    (l : Link ℕ) × Work counting woken_link l
    × (requests_of l ≡ [])
    × (l.helper.pending_request ≡ false)
    × (l.helper.phase ≡ reading no_events l.helper.server.poll_fds)
unfolding wake start
Reach-drained_example = Reach-drained counting store 0 no_events unused woken_link-reached refl

abbrev close_message : Message
close_message = record { kind = request_close; request_id = 1; payload = set_int 3 }

abbrev or_woken : Option (Link ℕ) → Link ℕ
or_woken none = woken_link
or_woken (some l) = l

-- The helper process closes the descriptor and answers.
abbrev served_link : Link ℕ
served_link = or_woken (receive_next counting close_message [] woken_link)

served_link-reached : Reach counting (start store 0) served_link
unfolding start wake receive_next send receive serve serve_close get_int get_int_from set_int
    set_int_from suspend_signals add_request resume_signals
served_link-reached =
    next woken_link-reached (receives no_events close_message [] {l' = served_link} refl refl refl)

abbrev close_reply : Message
close_reply = record { kind = request_close; request_id = 1; payload = set_int 0 }

Reach-Handles_example :
    Handles close_reply served_link.store (handle_reply close_reply served_link.store)
unfolding start wake receive_next send receive serve serve_close get_int get_int_from set_int
    set_int_from suspend_signals add_request resume_signals
Reach-Handles_example =
    Reach-Handles counting store 0 unused served_link-reached close_reply [] refl

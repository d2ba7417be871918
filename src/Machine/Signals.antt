-- ===== src/Machine/Signals.antt =====
-- Machine.cpp: the signal mask and the alarm.
use project.Prelude.{ℕ, true, false, ◌||◌, Option, none, some, if◌then◌else◌}
use project.Machine.Codec.{is_negative}
use project.Machine.Data.{SigSet, Machine}

-- sigfillset and sigemptyset
abbrev pub all_signals : SigSet
all_signals s = true

abbrev pub no_signals : SigSet
no_signals s = false

unfoldable pub enable_signals : Machine → Machine
enable_signals m = record m { mask = no_signals }

-- The new state, and the mask that is stored through the argument.
unfoldable pub suspend_signals : Machine → Machine × SigSet
suspend_signals m = (record m { mask = all_signals }, m.mask)

unfoldable pub resume_signals : SigSet → Machine → Machine
resume_signals saved m = record m { mask = saved }

-- MachineRequestAlarm with the callback timerInterrupt: the period asked of ualarm.
unfoldable pub request_alarm : ℕ → Machine → Machine
request_alarm usec m = if m.initialized then record m { alarm = some usec } else m

-- What the two calls of msgget return, as an `int`.
pub record Channels : Type 0 where
  pub request_channel : ℕ
  pub reply_channel : ℕ

-- The process of the caller once the helper process is there.
unfoldable pub forked : Machine → Machine
forked m =
    let (m1, saved) = suspend_signals m in resume_signals saved (record m1 { initialized = true })

-- MachineInitialize for the caller; `none` is exit(1). The fork is taken to succeed.
unfoldable pub machine_initialize : Channels → Machine → Option Machine
machine_initialize c m =
    if m.initialized
    then some m
    else if is_negative c.request_channel || is_negative c.reply_channel
    then none
    else some (forked m)

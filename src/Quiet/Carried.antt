-- ===== src/Quiet/Carried.antt =====
-- VirtualMachine.cpp and Machine.cpp: the calls of a module as steps of the two processes.
use project.Prelude.{◌≤◌, refl, ◌⊎◌, inl, inr, true, false, List, arith, ltb, Bool-cases}
use project.Machine.Data.{Message}
use project.Vm.Data.{ThreadStore}
use project.Vm.Run.{Run, done, switched, undefined, unfinished, aborted}
use project.Vm.Timer.{timer_interrupt}
use project.Machine.Server.{Os}
use project.Link.Defs.{Link, Helper, Reach, here, next, ask, notify, work}
use project.System.Defs.{Call, exec}
use project.Quiet.Talk.{Talk, silent, asks, Talks}
use project.Quiet.Exec.{IsProper, exec-Talks, timer_interrupt-Talks}

-- Both processes while no signal is due behind a request.
abbrev pub both : {World : Type 0} → ThreadStore → Helper World → List Message → Link World
both s h q = record { store = s; owes_signal = false; helper = h; replies = q }

module _ {World : Type 0} (os : Os World) (h : Helper World) (q : List Message) where
  -- The steps of the two processes lead from one store to the other, without a step of the helper
  -- process and without a reply; or the counter of requests was at its last value.
  abbrev pub Carried : ThreadStore → ThreadStore → Type 0
  Carried s s' =
      ((h' : Helper World) × Reach os (both s h q) (both s' h' q))
      ⊎ (4294967295 ≤ s.machine.request_id)

  Talk-Carried : {s s' : ThreadStore} → Talk s s' → Carried s s'
  Talk-Carried {s} {s'} (silent k) = inl (h, next here (work s' k.quiet))
  Talk-Carried {s} {s'} (asks u m k a e q w) =
      elim (Bool-cases (ltb s.machine.request_id 4294967295)) [
        | inl b ↦ inl (
          record h { signal = true },
          next
              (next
                (next (next here (work u k.quiet))
                  (ask u.current_thread m refl (ground (arith, b, k.quiet.request_id)) a e))
                (notify refl))
              (work s' q),
        )
        | inr b ↦ inr (ground (arith, b))
      ]

  -- At the end and at every switch, from the start or from where the thread came back.
  abbrev pub Carries : {A : Type 0} → ThreadStore → Run A → Type 0
  Carries s (done a u) = Carried s u
  Carries s (switched t u k) = Carried s u × ((w : ThreadStore) → Carries w (k w))
  Carries s undefined = Unit
  Carries s unfinished = Unit
  Carries s aborted = Unit

  Talks-Carries : {A : Type 0} (s : ThreadStore) (r : Run A) → Talks s r → Carries s r
  Talks-Carries s (done a u) t = Talk-Carried t
  Talks-Carries s (switched c u k) (t, g) = (Talk-Carried t, λ w. Talks-Carries w (k w) (g w))
  Talks-Carries s undefined t = tt
  Talks-Carries s unfinished t = tt
  Talks-Carries s aborted t = tt

  -- Whatever call a module makes, with an `int` for each `int`, a name that is a C string, and names
  -- and data that fit into a message, and whatever the helper process and the reply channel hold: from
  -- the start to the first switch or the end, and from each return of the thread to the next, the store
  -- changes by steps that the system of both processes allows, or the counter of requests was at its
  -- last value.
  pub exec-Carries : (x : Call) (s : ThreadStore) → IsProper x → Carries s (exec x s)
  exec-Carries x s p = Talks-Carries s (exec x s) (exec-Talks x s p)

  pub timer_interrupt-Carries : (s : ThreadStore) → Carries s (timer_interrupt s)
  timer_interrupt-Carries s = Talks-Carries s (timer_interrupt s) (timer_interrupt-Talks s)

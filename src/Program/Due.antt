-- ===== src/Program/Due.antt =====
-- VirtualMachine.cpp and Machine.cpp together: the signal behind a reply.
use project.Prelude.{
  ◌+◌, ◌≡◌, refl, ap, ◌∙◌, ◌⊎◌, inl, inr, Bool, true, ◌||◌, List, [], ◌∷◌, ◌++◌, arith, ltb, length,
  length-append,
}
use project.Machine.Data.{Message}
use project.Machine.Server.{Os}
use project.Vm.Data.{ThreadStore}
use project.Program.Defs.{Program, Step, runs, beside, handles, Reach, here, next, begin}
use project.Program.Beside.{IsBeside-Appends}

-- No reply is on its channel, or its signal waits to be delivered.
abbrev pub IsDue : {World : Type 0} → Program World → Type 0
IsDue p = (p.replies ≡ []) ⊎ (p.reply_signal ≡ true)

module _ {World : Type 0} (os : Os World) where
  -- Nothing has been added, or the list is longer.
  grown :
      (old new : List Message) (due : Bool) (out : List Message)
      → new ≡ old ++ out
      → (old ≡ []) ⊎ (due ≡ true)
      → (new ≡ []) ⊎ ((due || ltb (length old) (length new)) ≡ true)
  grown old new due [] e (inl k) = inl (e ∙ ap (λ l. l ++ []) k)
  grown old new due [] e (inr k) = inr (rw k)
  grown old new due (q ∷ out) e h =
      let n : length new ≡ length old + length (q ∷ out) =
        ap length e ∙ length-append old (q ∷ out) in
      inr (ground (arith, n))

  Step-IsDue : {p p' : Program World} → Step os p p' → IsDue p → IsDue p'
  Step-IsDue (runs st o e room) h = h
  Step-IsDue {p} (beside s {l} e st b) h =
      let (out, k) = IsBeside-Appends os st b in grown p.replies l.replies p.reply_signal out k h
  Step-IsDue (handles s s' cs e o d m k) h = inl refl

  pub Reach-IsDue :
      (s : ThreadStore) (w : World) {p : Program World} → Reach os (begin s w) p → IsDue p
  unfolding begin
  Reach-IsDue s w here = inl refl
  Reach-IsDue s w (next r st) = Step-IsDue st (Reach-IsDue s w r)

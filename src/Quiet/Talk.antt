-- ===== src/Quiet/Talk.antt =====
-- VirtualMachine.cpp and UtilityFunctions.cpp: a computation by the requests that it makes.
use project.Prelude.{
  ℕ, ◌≡◌, refl, sym, ap, ◌∙◌, ◌⊎◌, Bool, true, false, Option, some, if◌then◌else◌,
}
use project.Machine.Data.{Machine}
use project.Machine.Signals.{suspend_signals, resume_signals}
use project.Vm.Data.{ThreadStore}
use project.Vm.Run.{Run, done, switched, undefined, unfinished, aborted, M, bind}
use project.Api.Call.{Reply, suspend, answer}
use project.Link.Defs.{IsFile, Asks, IsQuiet}
use project.Spec.Kept.{io}
use project.Quiet.Run.{view, Tame}

-- The traffic is as before, and no further thread waits for a reply.
pub record Still (s s' : ThreadStore) : Type 0 where
  pub quiet : IsQuiet s s'
  pub calm : (t : ℕ) → io s' t ≡ true → io s t ≡ true

-- The current thread may have made a request, and may wait for its reply now if it is for a file.
pub data Talk (s : ThreadStore) : ThreadStore → Type 0 where
  silent : {s' : ThreadStore} → Still s s' → Talk s s'
  asks :
      (u : ThreadStore) (m : Machine) {r : Option Machine} {s' : ThreadStore}
      → Still s u
      → (a : Asks u.current_thread u.machine r) → r ≡ some m
      → IsQuiet (record u { machine = m }) s'
      → ((t : ℕ) → io s' t ≡ true → (io u t ≡ true) ⊎ ((u.current_thread ≡ t) × IsFile a))
      → Talk s s'

pub IsQuiet-trans : {a b c : ThreadStore} → IsQuiet a b → IsQuiet b c → IsQuiet a c
IsQuiet-trans g h = record {
  pending = h.pending ∙ g.pending;
  requests = h.requests ∙ g.requests;
  request_id = h.request_id ∙ g.request_id;
  initialized = h.initialized ∙ g.initialized;
}

pub IsQuiet-of : (a b : ThreadStore) → b.machine ≡ a.machine → IsQuiet a b
IsQuiet-of a b e = record {
  pending = ap (λ m. m.pending) e;
  requests = ap (λ m. m.requests) e;
  request_id = ap (λ m. m.request_id) e;
  initialized = ap (λ m. m.initialized) e;
}

pub Still-trans : {a b c : ThreadStore} → Still a b → Still b c → Still a c
Still-trans g h = record {
  quiet = IsQuiet-trans g.quiet h.quiet;
  calm = λ t e. g.calm t (h.calm t e);
}

pub Still-of : (a b : ThreadStore) → view b ≡ view a → Still a b
Still-of a b e = record {
  quiet = IsQuiet-of a b (ap (λ v. v.0) e);
  calm = λ t w. sym (ap (λ v. v.1 t) e) ∙ w;
}

pub Talk-after : {a b c : ThreadStore} → Still a b → Talk b c → Talk a c
Talk-after g (silent h) = silent (Still-trans g h)
Talk-after g (asks u m h a e q w) = asks u m (Still-trans g h) a e q w

pub Talk-then : {a b c : ThreadStore} → Talk a b → Still b c → Talk a c
Talk-then (silent h) g = silent (Still-trans h g)
Talk-then (asks u m h a e q w) g =
    asks u m h a e (IsQuiet-trans q g.quiet) (λ t x. w t (g.calm t x))

-- At every switch and at the end the store has come about so, from the start or from where the
-- thread came back.
abbrev pub Along :
    {A : Type 0} → (ThreadStore → ThreadStore → Type 0) → ThreadStore → Run A → Type 0
Along R s (done a u) = R s u
Along R s (switched t u k) = R s u × ((w : ThreadStore) → Along R w (k w))
Along R s undefined = Unit
Along R s unfinished = Unit
Along R s aborted = Unit

abbrev pub Stills : {A : Type 0} → ThreadStore → Run A → Type 0
Stills = Along Still

abbrev pub Talks : {A : Type 0} → ThreadStore → Run A → Type 0
Talks = Along Talk

pub Stills-after :
    {A : Type 0} (s u : ThreadStore) (r : Run A) → Still s u → Stills u r → Stills s r
Stills-after s u (done a w) t h = Still-trans t h
Stills-after s u (switched c w k) t (h, g) = (Still-trans t h, g)
Stills-after s u undefined t h = tt
Stills-after s u unfinished t h = tt
Stills-after s u aborted t h = tt

pub Talks-after : {A : Type 0} (s u : ThreadStore) (r : Run A) → Still s u → Talks u r → Talks s r
Talks-after s u (done a w) t h = Talk-after t h
Talks-after s u (switched c w k) t (h, g) = (Talk-after t h, g)
Talks-after s u undefined t h = tt
Talks-after s u unfinished t h = tt
Talks-after s u aborted t h = tt

pub Stills-bind :
    {A B : Type 0} (s : ThreadStore) (r : Run A) (f : A → M B)
    → Stills s r
    → ((a : A) (u : ThreadStore) → Stills u (f a u))
    → Stills s (bind r f)
Stills-bind s (done a u) f h g = Stills-after s u (f a u) h (g a u)
Stills-bind s (switched t u k) f (e, h) g = (e, λ w. Stills-bind w (k w) f (h w) g)
Stills-bind s undefined f h g = tt
Stills-bind s unfinished f h g = tt
Stills-bind s aborted f h g = tt

pub Talks-Stills : {A : Type 0} (s : ThreadStore) (r : Run A) → Stills s r → Talks s r
Talks-Stills s (done a u) h = silent h
Talks-Stills s (switched t u k) (e, h) = (silent e, λ w. Talks-Stills w (k w) (h w))
Talks-Stills s undefined h = tt
Talks-Stills s unfinished h = tt
Talks-Stills s aborted h = tt

Talk-Stills : {A : Type 0} (s u : ThreadStore) (r : Run A) → Talk s u → Stills u r → Talks s r
Talk-Stills s u (done a w) t h = Talk-then t h
Talk-Stills s u (switched c w k) t (h, g) = (Talk-then t h, λ x. Talks-Stills x (k x) (g x))
Talk-Stills s u undefined t h = tt
Talk-Stills s u unfinished t h = tt
Talk-Stills s u aborted t h = tt

-- A computation that may make a request, and one that makes none.
pub Talks-bind :
    {A B : Type 0} (s : ThreadStore) (r : Run A) (f : A → M B)
    → Talks s r
    → ((a : A) (u : ThreadStore) → Stills u (f a u))
    → Talks s (bind r f)
Talks-bind s (done a u) f h g = Talk-Stills s u (f a u) h (g a u)
Talks-bind s (switched t u k) f (e, h) g = (e, λ w. Talks-bind w (k w) f (h w) g)
Talks-bind s undefined f h g = tt
Talks-bind s unfinished f h g = tt
Talks-bind s aborted f h g = tt

pub Stills-Tame : {A : Type 0} (s : ThreadStore) (r : Run A) → Tame (view s) r → Stills s r
Stills-Tame s (done a u) h = Still-of s u h
Stills-Tame s (switched t u k) (e, h) = (Still-of s u e, λ w. Stills-Tame w (k w) (h w))
Stills-Tame s undefined h = tt
Stills-Tame s unfinished h = tt
Stills-Tame s aborted h = tt

pub signals-Still :
    (s : ThreadStore) (m : Machine)
    → m.pending ≡ s.machine.pending
    → m.requests ≡ s.machine.requests
    → m.request_id ≡ s.machine.request_id
    → m.initialized ≡ s.machine.initialized
    → Still s (record s { machine = m })
signals-Still s m a b c d = record {
  quiet = record { pending = a; requests = b; request_id = c; initialized = d };
  calm = λ t e. e;
}

module _ (saved : ℕ → Bool) (status : ℕ) (out : Option ℕ) where
  pub answer-Stills : (s : ThreadStore) → Stills s (answer saved status out s)
  unfolding answer resume_signals
  answer-Stills s = signals-Still s (resume_signals saved s.machine) refl refl refl refl

  -- An answer after a computation that leaves the machine alone.
  pub then_answer-Stills :
      {A : Type 0} (s : ThreadStore) (r : Run A)
      → Tame (view s) r
      → Stills s (bind r (λ _. answer saved status out))
  then_answer-Stills s r h =
      Stills-bind s r (λ _. answer saved status out) (Stills-Tame s r h) (λ a u. answer-Stills u)

suspend-Still : (s : ThreadStore) → Still s (suspend s).0
unfolding suspend suspend_signals
suspend-Still s = signals-Still s (suspend_signals s.machine).0 refl refl refl refl

pub suspended-Stills : (s : ThreadStore) (r : Run Reply) → Stills (suspend s).0 r → Stills s r
suspended-Stills s r h = Stills-after s (suspend s).0 r (suspend-Still s) h

pub suspended-Talks : (s : ThreadStore) (r : Run Reply) → Talks (suspend s).0 r → Talks s r
suspended-Talks s r h = Talks-after s (suspend s).0 r (suspend-Still s) h

-- A branch on a test.
pub choose-Stills :
    {A : Type 0} (s : ThreadStore) (b : Bool) (x y : Run A)
    → Stills s x
    → Stills s y
    → Stills s (if b then x else y)
choose-Stills s true x y h k = h
choose-Stills s false x y h k = k

pub choose-Talks :
    {A : Type 0} (s : ThreadStore) (b : Bool) (x y : Run A)
    → Talks s x
    → Talks s y
    → Talks s (if b then x else y)
choose-Talks s true x y h k = h
choose-Talks s false x y h k = k

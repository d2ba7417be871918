-- ===== src/Spec/CommandLine.antt =====
-- main.c: the options of the command line.
use project.Prelude.{
  ℕ, ◌≡◌, refl, inl, inr, true, false, ◌||◌, Option, none, some, List, [], ◌∷◌, Bool-cases,
  is_empty, All,
}
use project.Api.Main.{
  Text, tick_option, machine_option, same_text, Parsed, starts, invalid, no_module, is_positive,
  with_number, parse,
}

pub data Setting : Type 0 where
  tick_time : ℕ → Setting
  machine_time : ℕ → Setting

abbrev pub IsValid : Setting → Type 0
IsValid (tick_time n) = is_positive n ≡ true
IsValid (machine_time n) = is_positive n ≡ true

-- The last setting of each kind counts.
abbrev pub tick_of : List Setting → ℕ → ℕ
tick_of [] t = t
tick_of (tick_time n ∷ ss) t = tick_of ss n
tick_of (machine_time n ∷ ss) t = tick_of ss t

abbrev pub machine_of : List Setting → ℕ → ℕ
machine_of [] k = k
machine_of (tick_time n ∷ ss) k = machine_of ss k
machine_of (machine_time n ∷ ss) k = machine_of ss n

-- The arguments for some settings, then the rest.
abbrev pub render : (ℕ → Text) → List Setting → List Text → List Text
render print [] rest = rest
render print (tick_time n ∷ ss) rest = tick_option ∷ print n ∷ render print ss rest
render print (machine_time n ∷ ss) rest = machine_option ∷ print n ∷ render print ss rest

-- The times are positive and there is a module to load.
abbrev pub IsReady : Parsed → Type 0
IsReady (starts t k rest) =
    (is_positive t ≡ true) × (is_positive k ≡ true) × (is_empty rest ≡ false)
IsReady invalid = Unit
IsReady no_module = Unit

module _ (scan : Text → Option ℕ) where
  parse-module :
      (m : Text) (args : List Text) (t k : ℕ)
      → same_text m tick_option ≡ false
      → same_text m machine_option ≡ false
      → parse scan (m ∷ args) t k ≡ starts t k (m ∷ args)
  unfolding parse
  parse-module m [] t k a b = rw (a, b)
  parse-module m (x ∷ args) t k a b = rw (a, b)

  -- If `scan` reads each positive `int` that `print` writes, any positive settings in any order, printed in
  -- front of a module that is named like no option, are read back: the last one of each kind is the
  -- time, the default where there is none, and the module and what follows are passed on.
  pub parse-render :
      (print : ℕ → Text) (ss : List Setting) (m : Text) (args : List Text) (t k : ℕ)
      → ((n : ℕ) → is_positive n ≡ true → scan (print n) ≡ some n)
      → All IsValid ss
      → same_text m tick_option ≡ false
      → same_text m machine_option ≡ false
      → parse scan (render print ss (m ∷ args)) t k
        ≡ starts (tick_of ss t) (machine_of ss k) (m ∷ args)
  unfolding parse same_text
  parse-render print [] m args t k h v a b = parse-module m args t k a b
  parse-render print (tick_time n ∷ ss) m args t k h v a b =
      rw (h n v.0, v.0) (parse-render print ss m args n k h v.1 a b)
  parse-render print (machine_time n ∷ ss) m args t k h v a b =
      rw (h n v.0, v.0) (parse-render print ss m args t n h v.1 a b)

  number-IsReady :
      (o : Option ℕ) (f : ℕ → Parsed)
      → ((n : ℕ) → is_positive n ≡ true → IsReady (f n))
      → IsReady (with_number scan o f)
  number-IsReady none f h = tt
  number-IsReady (some n) f h = elim (Bool-cases (is_positive n)) [
    | inl e ↦ rw e (h n e)
    | inr e ↦ rw e tt
  ]

  -- Whatever the arguments are and whatever `scan` reads, where the two times are positive before,
  -- VMStart is called with two times that are positive as an `int`, and with the name of a module, or
  -- not at all.
  pub parse-IsReady :
      (args : List Text) (t k : ℕ)
      → is_positive t ≡ true
      → is_positive k ≡ true
      → IsReady (parse scan args t k)
  unfolding parse
  parse-IsReady [] t k p q = tt
  parse-IsReady (a ∷ []) t k p q =
      elim (Bool-cases (same_text a tick_option || same_text a machine_option)) [
        | inl e ↦ rw e tt
        | inr e ↦ rw e (p, q, refl)
      ]
  parse-IsReady (a ∷ b ∷ rest) t k p q =
      let on_tick = number-IsReady (scan b) _ (λ n h. parse-IsReady rest n k h q) in
      let on_machine = number-IsReady (scan b) _ (λ n h. parse-IsReady rest t n p h) in
      elim (Bool-cases (same_text a tick_option)) [
        | inl e ↦ rw e on_tick
        | inr e ↦ rw e (elim (Bool-cases (same_text a machine_option)) [
          | inl f ↦ rw f on_machine
          | inr f ↦ rw f (p, q, refl)
        ])
      ]

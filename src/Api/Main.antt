-- ===== src/Api/Main.antt =====
-- main.c: the options of the command line, and the call of VMStart.
use project.Prelude.{
  ℕ, Bool, true, false, not, ◌&&◌, ◌||◌, Option, none, some, List, [], ◌∷◌, ltb, ◌==◌,
  if◌then◌else◌,
}
use project.Machine.Codec.{is_negative}
use project.Machine.Signals.{Channels}
use project.Vm.Data.{success}
use project.Vm.Run.{done, M, bind}
use project.Api.Start.{Library, vm_start}

-- An argument, by its bytes.
abbrev pub Text : Type 0
Text = List ℕ

-- "-t" and "-m"
abbrev pub tick_option : Text
tick_option = 45 ∷ 116 ∷ []

abbrev pub machine_option : Text
machine_option = 45 ∷ 109 ∷ []

-- strcmp
unfoldable pub same_text : Text → Text → Bool
same_text [] [] = true
same_text [] (b ∷ ys) = false
same_text (a ∷ xs) [] = false
same_text (a ∷ xs) (b ∷ ys) = a == b && same_text xs ys

-- What the loop over the arguments comes to.
pub data Parsed : Type 0 where
  starts : ℕ → ℕ → List Text → Parsed
  invalid : Parsed
  no_module : Parsed

-- The test on a number that was read: it must be positive as an `int`.
unfoldable pub is_positive : ℕ → Bool
is_positive n = ltb 0 n && not (is_negative n)

-- sscanf with "%d" is the parameter `scan`: the `int` that it reads, if it reads one.
module _ (scan : Text → Option ℕ) where
  abbrev pub with_number : Option ℕ → (ℕ → Parsed) → Parsed
  with_number none next = invalid
  with_number (some n) next = if is_positive n then next n else invalid

  -- The loop, with the two times as they are so far.
  unfoldable pub parse : List Text → ℕ → ℕ → Parsed
  parse [] tick machine = no_module
  parse (a ∷ []) tick machine =
      if same_text a tick_option || same_text a machine_option
      then no_module
      else starts tick machine (a ∷ [])
  parse (a ∷ b ∷ rest) tick machine =
      let on_tick = with_number (scan b) (λ n. parse rest n machine) in
      let on_machine = with_number (scan b) (λ n. parse rest tick n) in
      if same_text a tick_option
      then on_tick
      else if same_text a machine_option
      then on_machine
      else starts tick machine (a ∷ b ∷ rest)

  -- The exit status, from the status of VMStart.
  abbrev pub exit_code : ℕ → ℕ
  exit_code status = if status == success then 0 else 1

  abbrev pub main_with : Channels → (List Text → Library) → ℕ → Parsed → M ℕ
  main_with c load param invalid s = done 1 s
  main_with c load param no_module s = done 1 s
  main_with c load param (starts tick machine args) s =
      bind (vm_start c param tick (load args) s) (λ status. done (exit_code status))

  -- The arguments are those behind the name of the program. `load` is what dlopen and dlsym find.
  unfoldable pub main : Channels → (List Text → Library) → ℕ → List Text → M ℕ
  main c load param args = main_with c load param (parse args 100 100)

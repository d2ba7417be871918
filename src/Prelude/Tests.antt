-- ===== src/Prelude/Tests.antt =====
-- Boolean tests on the native numbers, the conditional and the functional update.
use Prim.Native.Nat.{ℕ, ◌+◌, ◌<◌, compare, Ordering}
use mathlib.Core.Path.{◌≡◌, refl, sym, ap, ◌∙◌, fun_ext}
use mathlib.Core.Logic.{◌⊎◌, inl, inr, ◌≢◌}
use mathlib.Core.Bool.{Bool, true, false}
use mathlib.Core.Option.{Option, none, some}
use native.Mathlib.Omega.{arith}

abbrev pub ltb : ℕ → ℕ → Bool
ltb a b = elim (compare a b) [ Ordering.lt ↦ true | _ ↦ false ]

abbrev pub leb : ℕ → ℕ → Bool
leb a b = elim (compare a b) [ Ordering.gt ↦ false | _ ↦ true ]

infix 50 ◌==◌
abbrev pub ◌==◌ : ℕ → ℕ → Bool
a == b = elim (compare a b) [ Ordering.eq ↦ true | _ ↦ false ]

infix 1 if◌then◌else◌
abbrev pub if◌then◌else◌ {ℓ} : {A : Type ℓ} → Bool → A → A → A
if true then x else y = x
if false then x else y = y

-- To split on a computed value and keep the equation.
pub Bool-cases : (b : Bool) → (b ≡ true) ⊎ (b ≡ false)
Bool-cases true = inl refl
Bool-cases false = inr refl

pub Option-cases {ℓ} : {A : Type ℓ} (o : Option A) → (o ≡ none) ⊎ ((a : A) × (o ≡ some a))
Option-cases none = inl refl
Option-cases (some a) = inr (a, refl)

pub eq_cases : (a b : ℕ) → (a ≡ b) ⊎ (a ≢ b)
eq_cases a b = ground arith

-- A table indexed by numbers, with one entry written.
abbrev pub update {ℓ} : {A : Type ℓ} → (ℕ → A) → ℕ → A → ℕ → A
update f k v i = if k == i then v else f i

pub eq_of_== : (a b : ℕ) → (a == b) ≡ true → a ≡ b
eq_of_== a b h = ground arith

-- What holds of the entry that is written and of the old ones holds of every entry.
pub update-cases {ℓ κ} :
    {A : Type ℓ} (P : A → Type κ) (f : ℕ → A) (k i : ℕ) (v : A)
    → (k ≡ i → P v)
    → P (f i)
    → P (update f k v i)
update-cases P f k i v new old = elim (Bool-cases (k == i)) [
  | inl e ↦ rw e (new (eq_of_== k i e))
  | inr e ↦ rw e old
]

-- The first that is there.
abbrev pub or_else {ℓ} : {A : Type ℓ} → Option A → Option A → Option A
or_else none y = y
or_else (some x) y = some x

pub ==_refl : (a : ℕ) → (a == a) ≡ true
==_refl a = ground arith

pub update_self {ℓ} : {A : Type ℓ} (f : ℕ → A) (k : ℕ) (v : A) → update f k v k ≡ v
update_self f k v = rw (==_refl k)

pub ltb_of_lt : (a b : ℕ) → a < b → ltb a b ≡ true
ltb_of_lt a b h = ground arith

pub update_same {ℓ} : {A : Type ℓ} (f : ℕ → A) (k : ℕ) (v : A) → f k ≡ v → update f k v ≡ f
update_same f k v h = fun_ext (λ i. update-cases (λ y. y ≡ f i) f k i v (λ e. sym h ∙ ap f e) refl)

-- The same where the entry that is written is the first free one.
pub update-fresh {ℓ κ} :
    {A : Type ℓ} (P : A → Type κ) (f : ℕ → A) (k i : ℕ) (v : A)
    → P v
    → (i < k → P (f i))
    → i < k + 1
    → P (update f k v i)
update-fresh P f k i v new old h = elim (Bool-cases (k == i)) [
  | inl e ↦ rw e new
  | inr e ↦ rw e (old (ground arith))
]

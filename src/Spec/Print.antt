-- ===== src/Spec/Print.antt =====
-- VirtualMachineUtils.c: what VMFilePrint has written.
use project.Prelude.{
  ℕ, zero, suc, ◌+◌, ◌-◌, ◌≤◌, ◌≡◌, refl, ap, subst, inl, inr, true, false, Option, some, List, [],
  ◌∷◌, ◌++◌, arith, ltb, if◌then◌else◌, Bool-cases, update, length, take, update_self,
}
use project.Machine.Requests.{read_bytes}
use project.Vm.Data.{ThreadStore}
use project.Vm.Reply.{write_bytes}
use project.Api.Print.{small_buffer_size, stored, write_memory, format_text}
use project.Spec.Replies.{write_bytes-below, read_bytes-write_bytes}

-- The store with the text in the buffer that it goes to, and the address of that buffer.
abbrev pub formatted : ℕ → ℕ → List ℕ → ThreadStore → ThreadStore × ℕ
formatted small heap text s =
    let s1 = write_memory small (stored small_buffer_size text) s in
    if ltb (length text) small_buffer_size
    then (s1, small)
    else (write_memory heap (stored (length text) text) s1, heap)

pub format_text-formatted :
    (small heap : ℕ) (text : List ℕ) (again : Option (List ℕ)) (s : ThreadStore)
    → (small_buffer_size ≤ length text → again ≡ some text)
    → format_text small heap text again s
      ≡ some ((formatted small heap text s).0, (formatted small heap text s).1, length text)
unfolding format_text
format_text-formatted small heap text again s h =
    elim (Bool-cases (ltb (length text) small_buffer_size)) [
      | inl e ↦ rw e refl
      | inr e ↦ rw (h (ground (arith, e)), e) refl
    ]

-- The bytes that VMFileWrite takes: as many as the text has, from the buffer.
abbrev pub printed : ℕ → ℕ → List ℕ → ThreadStore → List ℕ
printed small heap text s =
    let (s', buffer) = formatted small heap text s in
    read_bytes (length text) buffer s'.machine.memory

read_bytes-prefix :
    (a : ℕ) (bytes more : List ℕ) (memory : ℕ → ℕ)
    → read_bytes (length bytes) a (write_bytes a (bytes ++ more) memory) ≡ bytes
unfolding read_bytes write_bytes
read_bytes-prefix a [] more memory = refl
read_bytes-prefix a (b ∷ bytes) more memory = rw (
  write_bytes-below (a + 1) a (bytes ++ more) (update memory a b) (omega arith),
  update_self memory a b,
  read_bytes-prefix (a + 1) bytes more (update memory a b),
)

take_all : (n : ℕ) (l : List ℕ) → length l ≤ n → take n l ≡ l
take_all zero [] h = refl
take_all zero (x ∷ l) h = absurd (omega (arith, h))
take_all (suc n) [] h = refl
take_all (suc n) (x ∷ l) h = ap (λ k. x ∷ k) (take_all n l (omega (arith, h)))

length-cut : (n : ℕ) (l : List ℕ) → n ≤ length l → length (take n l ++ 0 ∷ []) ≡ suc n
length-cut zero l h = refl
length-cut (suc n) [] h = absurd (omega (arith, h))
length-cut (suc n) (x ∷ l) h = ap suc (length-cut n l (omega (arith, h)))

-- A text of less than 256 bytes is printed as it is. A longer one is not: its last byte is
-- replaced by a zero byte.
pub printed_lem :
    (small heap : ℕ) (text : List ℕ) (s : ThreadStore)
    → printed small heap text s ≡ (
        if ltb (length text) small_buffer_size then text else take (length text - 1) text ++ 0 ∷ [])
unfolding stored write_memory
printed_lem small heap text s = elim (Bool-cases (ltb (length text) small_buffer_size)) [
  | inl e ↦ rw e (short e)
  | inr e ↦ rw e (long text e)
]
  where
    short :
        ltb (length text) small_buffer_size ≡ true
        → read_bytes
            (length text)
            small
            (write_bytes small (take 255 text ++ 0 ∷ []) s.machine.memory)
          ≡ text
    short e =
        rw (take_all 255 text (ground (arith, e)))
          (read_bytes-prefix small text (0 ∷ []) s.machine.memory)

    memory : ℕ → ℕ
    memory = write_bytes small (stored small_buffer_size text) s.machine.memory

    long :
        (l : List ℕ)
        → ltb (length l) small_buffer_size ≡ false
        → read_bytes (length l) heap (write_bytes heap (stored (length l) l) memory)
          ≡ take (length l - 1) l ++ 0 ∷ []
    long [] e = absurd (ground (arith, e))
    long (x ∷ l) e =
        let b : List ℕ = take (length l) (x ∷ l) ++ 0 ∷ [] in
        let pred : length (x ∷ l) - 1 ≡ length l = omega arith in
        rw pred (
          subst (λ n. read_bytes n heap (write_bytes heap b memory) ≡ b)
            (length-cut (length l) (x ∷ l) (omega arith)) (read_bytes-write_bytes heap b memory))

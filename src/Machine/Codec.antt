-- ===== src/Machine/Codec.antt =====
-- Machine.cpp: MachineGetInt and MachineSetInt. An `int` is its 32-bit pattern, below 2^32.
use project.Prelude.{
  ℕ, zero, suc, ◌+◌, ◌*◌, ◌/◌, ◌%◌, ◌^◌, ◌<◌, ◌≡◌, List, [], ◌∷◌, ◌++◌, Option, none, some, arith,
  ap, Bool, leb,
}

-- The sign of an `int`.
abbrev pub is_negative : ℕ → Bool
is_negative x = leb 2147483648 x

-- The rounds of the loop of MachineSetInt from index `4 - k` on.
unfoldable pub set_int_from : ℕ → ℕ → List ℕ
set_int_from zero value = []
set_int_from (suc k) value = (value / 2 ^ (k * 8) % 256) ∷ set_int_from k value

unfoldable pub set_int : ℕ → List ℕ
unfolding set_int_from
set_int value = set_int_from 4 value

-- The rounds of the loop of MachineGetInt; `none` means a read past the bytes that were written.
unfoldable pub get_int_from : ℕ → ℕ → List ℕ → Option ℕ
get_int_from zero value bytes = some value
get_int_from (suc k) value [] = none
get_int_from (suc k) value (b ∷ bytes) = get_int_from k ((value * 256 + b) % 4294967296) bytes

unfoldable pub get_int : List ℕ → Option ℕ
unfolding get_int_from
get_int bytes = get_int_from 4 0 bytes

-- A number below 2^32 that MachineSetInt writes, MachineGetInt reads back, whatever bytes follow.
pub get_int-set_int :
    (value : ℕ) (rest : List ℕ) → value < 4294967296 → get_int (set_int value ++ rest) ≡ some value
unfolding get_int set_int
get_int-set_int value rest h = ap some (omega arith)

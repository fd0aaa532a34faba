-- ===== src/Text/Tests.antt =====
-- Runs of the text functions, and the theorems about them on concrete texts.
use native.Mathlib.Omega.{arith}
use eset_store.Base.{ℕ, ◌≡◌, ◌⊎◌, refl, true, false, none, some, List, [], ◌∷◌, length, replicate}
use eset_store.Text.Number.{uint64_to_str, str_to_uint64, str_to_int, c_str}
use eset_store.Text.Decimal.{str_to_uint64-uint64_to_str, uint64_to_str_overrun}
use eset_store.Text.Search.{has_substr}
use eset_store.Text.Lines.{Stands, has_substr_iff}

abbrev number_buf : List ℕ
number_buf = replicate 21 0

-- "305"
abbrev digits : List ℕ
digits = b'3' ∷ b'0' ∷ b'5' ∷ []

uint64_to_str_run : uint64_to_str 305 (replicate 5 7) 5 ≡ some (3, b'3' ∷ b'0' ∷ b'5' ∷ 0 ∷ 7 ∷ [])
unfolding uint64_to_str
uint64_to_str_run = refl

str_to_int_run : str_to_int (some (b'a' ∷ digits)) ≡ 305
unfolding str_to_int
str_to_int_run = refl

str_to_uint64-uint64_to_str_example :
    (n : ℕ) × (out : List ℕ) × (uint64_to_str 305 number_buf 21 ≡ some (n, out))
    × (length (c_str out) ≡ n)
    × (str_to_uint64 (c_str out) ≡ 305)
str_to_uint64-uint64_to_str_example =
    str_to_uint64-uint64_to_str 305 21 number_buf (omega arith) (omega arith) (omega arith)

uint64_to_str_overrun_example : uint64_to_str 305 (7 ∷ 7 ∷ 7 ∷ []) 3 ≡ none
uint64_to_str_overrun_example =
    uint64_to_str_overrun 305 2 (7 ∷ 7 ∷ 7 ∷ []) (omega arith) (omega arith) refl

-- "ab" stands in "xaby", and in "xab" it is missed
has_substr_run :
    (has_substr (b'x' ∷ b'a' ∷ b'b' ∷ b'y' ∷ []) (b'a' ∷ b'b' ∷ []) 4 ≡ some true)
    × (has_substr (b'x' ∷ b'a' ∷ b'b' ∷ []) (b'a' ∷ b'b' ∷ []) 3 ≡ some false)
    × (has_substr (b'a' ∷ []) (b'a' ∷ b'b' ∷ []) 4 ≡ none)
    × (has_substr [] [] 1 ≡ some true)
unfolding has_substr
has_substr_run = (refl, refl, refl, refl)

has_substr_iff_example :
    ((has_substr (b'x' ∷ b'a' ∷ b'y' ∷ []) (b'a' ∷ []) 3 ≡ some true)
      × Stands (b'x' ∷ b'a' ∷ b'y' ∷ []) (b'a' ∷ []) 3)
    ⊎ ((has_substr (b'x' ∷ b'a' ∷ b'y' ∷ []) (b'a' ∷ []) 3 ≡ some false)
        × ¬ Stands (b'x' ∷ b'a' ∷ b'y' ∷ []) (b'a' ∷ []) 3)
has_substr_iff_example =
    has_substr_iff (b'x' ∷ b'a' ∷ b'y' ∷ []) (b'a' ∷ []) 3 (omega arith) (omega arith)

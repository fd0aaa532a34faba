-- ===== src/Coding/Invert.antt =====
-- gcrs_invert_bitmatrix of ECServer/GCRSMatrix.c. A matrix of bits is a function of a row and a
-- column; where its `int` is 1 it is `true`.
use mathlib.Core.Bool.{xor}
use eset_store.Base.{ℕ, zero, suc, ◌+◌, Bool, ◌==◌, if◌then◌else◌}

abbrev pub BitMatrix : Type 0
BitMatrix = ℕ → ℕ → Bool

-- The two matrices that the function changes.
pub record BitPair : Type 0 where
  pub mat : BitMatrix
  pub inv : BitMatrix

-- The function's result, 0 or -1, with what it leaves in the two matrices.
pub data Inversion : Type 0 where
  inverted : BitPair → Inversion
  not_invertible : BitPair → Inversion

-- What comes after `if (...) return -1;`
abbrev pub go_on : Inversion → (BitPair → Inversion) → Inversion
go_on (inverted s) f = f s
go_on (not_invertible s) f = not_invertible s

unfoldable pub identity : BitMatrix
identity i j = i == j

unfoldable pub swap_rows : ℕ → ℕ → BitMatrix → BitMatrix
swap_rows i j mat r c = if r == i then mat j c else if r == j then mat i c else mat r c

-- Row j becomes its sum with row i.
unfoldable pub add_row : ℕ → ℕ → BitMatrix → BitMatrix
add_row i j mat r c = if r == j then xor (mat j c) (mat i c) else mat r c

-- The search for a row to swap, of `left` rows from row j on.
unfoldable pub find_row : BitMatrix → ℕ → ℕ → ℕ → ℕ
find_row mat i zero j = j
find_row mat i (suc left) j = let rest = find_row mat i left (j + 1) in if mat j i then j else rest

-- Row i is added to row j, where that has a bit in column i.
unfoldable pub clear_row : ℕ → ℕ → BitPair → BitPair
unfolding add_row
clear_row i j s =
    if s.mat j i then record { mat = add_row i j s.mat; inv = add_row i j s.inv } else s

-- The inner loops of both passes, over `left` rows from row j on.
unfoldable pub clear_column : ℕ → ℕ → ℕ → BitPair → BitPair
unfolding clear_row
clear_column i zero j s = s
clear_column i (suc left) j s = clear_column i left (j + 1) (clear_row i j s)

unfoldable pub swap_in : ℕ → ℕ → BitPair → BitPair
unfolding swap_rows
swap_in i j s = record { mat = swap_rows i j s.mat; inv = swap_rows i j s.inv }

-- The swap at the start of a round, where the search from row i + 1 ends at row j.
unfoldable pub bring_row : ℕ → ℕ → ℕ → BitPair → Inversion
unfolding swap_in
bring_row i rows j s =
    if s.mat i i
    then inverted s
    else if j == rows
    then not_invertible s
    else inverted (swap_in i j s)

-- The first pass, in which `left` columns are left from column i on.
unfoldable pub to_upper : ℕ → ℕ → ℕ → BitPair → Inversion
unfolding bring_row find_row clear_column
to_upper rows zero i s = inverted s
to_upper rows (suc left) i s =
    go_on (bring_row i rows (find_row s.mat i left (i + 1)) s)
      (λ s'. to_upper rows left (i + 1) (clear_column i left (i + 1) s'))

-- The second pass, over the columns below `i` from the last one on.
unfoldable pub multiply_down : ℕ → BitPair → BitPair
unfolding clear_column
multiply_down zero s = s
multiply_down (suc i) s = multiply_down i (clear_column i i 0 s)

unfoldable pub gcrs_invert_bitmatrix : ℕ → BitMatrix → Inversion
unfolding to_upper multiply_down identity
gcrs_invert_bitmatrix rows mat =
    go_on (to_upper rows rows 0 (record { mat = mat; inv = identity }))
      (λ s. inverted (multiply_down rows s))

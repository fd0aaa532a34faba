-- ===== src/Base/Memory.antt =====
-- C arrays as lists, with out-of-range access as a fault (`none`), and the Option monad.
use Prim.Native.Nat.{ℕ, ◌+◌, ◌≤◌}
use mathlib.Core.Path.{◌≡◌}
use mathlib.Core.Bool.{Bool, true, false, ◌&&◌, ◌||◌}
use mathlib.Core.List.{List, [], ◌∷◌, ◌++◌}
use mathlib.Core.Option.{Option, none, some}
use eset_store.Base.Compare.{◌==◌, leb, ltb, le→leb, if◌then◌else◌}
use eset_store.Base.Lists.{length, take, drop, set}

infixl 5 ◌>>=◌
abbrev pub ◌>>=◌ {ℓ κ} : {A : Type ℓ} {B : Type κ} → Option A → (A → Option B) → Option B
none >>= f = none
some a >>= f = f a

module _ {ℓ} {A : Type ℓ} where
  -- The `n` cells from offset `off` on.
  abbrev pub read_bytes : List A → ℕ → ℕ → Option (List A)
  read_bytes xs off n = if leb (off + n) (length xs) then some (take n (drop off xs)) else none

  -- `memcpy(dst, src, |src|)`.
  abbrev pub write_bytes : List A → List A → Option (List A)
  write_bytes dst src =
      if leb (length src) (length dst) then some (src ++ drop (length src) dst) else none

  -- `dst[i] = v`
  abbrev pub write_at : List A → ℕ → A → Option (List A)
  write_at dst i v = if ltb i (length dst) then some (set dst i v) else none

  pub read_bytes-some :
      (xs : List A) (off n : ℕ)
      → off + n ≤ length xs
      → read_bytes xs off n ≡ some (take n (drop off xs))
  read_bytes-some xs off n h = rw (le→leb (off + n) (length xs) h)

  pub write_bytes-some :
      (dst src : List A)
      → length src ≤ length dst
      → write_bytes dst src ≡ some (src ++ drop (length src) dst)
  write_bytes-some dst src h = rw (le→leb (length src) (length dst) h)

-- `strncmp(a, b, n) == 0` on two texts of n characters.
unfoldable pub strncmp_zero : List ℕ → List ℕ → Bool
strncmp_zero [] ys = true
strncmp_zero (a ∷ xs) [] = false
strncmp_zero (a ∷ xs) (b ∷ ys) = (a == b) && ((a == 0) || strncmp_zero xs ys)

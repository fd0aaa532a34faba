-- ===== src/Coding/Restore.antt =====
-- The data that the inverse of Coding/Decode.antt restores from the devices that are read.
use mathlib.Core.Bool.{and_comm}
use native.Mathlib.Nat.{mod-lt}
use eset_store.Base.{
  ℕ, ◌+◌, ◌-◌, ◌*◌, ◌/◌, ◌%◌, ◌<◌, ◌≡◌, refl, ap, sym, ◌∙◌, arith, Bool, ◌&&◌, ◌==◌, ltb, List, [],
  ◌∷◌, length, get_or, inl, inr, Bool-cases, if◌then◌else◌, AllDifferent,
}
use eset_store.Coding.Invert.{BitMatrix, BitPair, inverted, identity, gcrs_invert_bitmatrix}
use eset_store.Coding.Parity.{parity, parity-eq, parity-and, parity-one, parity_swap}
use eset_store.Coding.RowSteps.{times, IsZero}
use eset_store.Coding.Kernel.{IsRegular, gcrs_invert_bitmatrix-regular}
use eset_store.Coding.Decode.{selected_rows}

-- Bit a of what device q stores for these data: k data devices, and behind them the parity devices.
abbrev pub stored : ℕ → ℕ → BitMatrix → (ℕ → Bool) → ℕ → ℕ → Bool
stored k w matrix d q a =
    if ltb q k then d (q * w + a) else times (k * w) matrix d ((q - k) * w + a)

-- Bit x of what these devices store, w bits each.
abbrev pub received : ℕ → ℕ → BitMatrix → (ℕ → Bool) → List ℕ → ℕ → Bool
received k w matrix d ids x = stored k w matrix d (get_or ids (x / w) 0) (x % w)

abbrev pub AreBelow : ℕ → List ℕ → Type 0
AreBelow n [] = Unit {0}
AreBelow n (q ∷ qs) = (q < n) × AreBelow n qs

-- Any k of the k + m devices determine the data: if all that they store is zero, the data are.
abbrev pub IsMds : ℕ → ℕ → ℕ → BitMatrix → Type 0
IsMds k m w matrix =
    (ids : List ℕ)
    → length ids ≡ k
    → AllDifferent ids
    → AreBelow (k + m) ids
    → (d : ℕ → Bool) → IsZero (k * w) (received k w matrix d ids)
    → IsZero (k * w) d

pub block-lt : (q a k w : ℕ) → q < k → a < w → q * w + a < k * w
block-lt q a k w p h = grind arith

-- The rows that the decoder selects, times the data, are what the devices store.
times-selected_rows :
    (k w : ℕ) (matrix : BitMatrix) (d : ℕ → Bool) (ids : List ℕ) (r : ℕ)
    → 0 < w
    → times (k * w) (selected_rows k w matrix ids) d r ≡ received k w matrix d ids r
unfolding selected_rows
times-selected_rows k w matrix d ids r pos = elim (Bool-cases (ltb (get_or ids (r / w) 0) k)) [
  | inl t ↦ rw t (
      parity-one (k * w) (get_or ids (r / w) 0 * w + r % w) d
        (block-lt (get_or ids (r / w) 0) (r % w) k w (ground (arith, t)) (mod-lt r pos)))
  | inr f ↦ rw f refl
]

and_move : (x y z : Bool) → (x && (y && z)) ≡ (z && (x && y))
and_move x y z = ground arith

-- A product of two matrices with a vector, in either order.
times-times :
    (n : ℕ) (a b : BitMatrix) (v : ℕ → Bool) (r : ℕ)
    → times n a (times n b v) r ≡ parity n (λ c. times n a (λ x. b x c) r && v c)
times-times n a b v r =
    parity-eq n (λ x. a r x && times n b v x) (λ x. parity n (λ c. a r x && (b x c && v c)))
      (λ x lt. sym (parity-and n (a r x) (λ c. b x c && v c)))
    ∙ parity_swap n n (λ x c. a r x && (b x c && v c))
    ∙ parity-eq n (λ c. parity n (λ x. a r x && (b x c && v c)))
        (λ c. times n a (λ x. b x c) r && v c)
        (λ c lt.
          parity-eq n (λ x. a r x && (b x c && v c)) (λ x. v c && (a r x && b x c))
            (λ x lx. and_move (a r x) (b x c) (v c))
          ∙ parity-and n (v c) (λ x. a r x && b x c)
          ∙ and_comm (v c) (times n a (λ x. b x c) r))

-- The inverse times what the devices store is the data.
inverse-restores :
    (n : ℕ) (a b : BitMatrix) (d : ℕ → Bool) (r : ℕ)
    → ((r c : ℕ) → r < n → c < n → times n a (λ k. b k c) r ≡ identity r c)
    → r < n
    → times n a (times n b d) r ≡ d r
unfolding identity
inverse-restores n a b d r inverse lt =
    times-times n a b d r
    ∙ parity-eq n (λ c. times n a (λ x. b x c) r && d c) (λ c. (r == c) && d c)
        (λ c lc. ap (λ z. z && d c) (inverse r c lt lc))
    ∙ parity-one n r d lt

-- With devices that determine the data, the inversion succeeds and its result restores the data.
pub selected_rows-restores :
    (k w : ℕ) (matrix : BitMatrix) (ids : List ℕ)
    → 0 < w
    → ((d : ℕ → Bool) → IsZero (k * w) (received k w matrix d ids) → IsZero (k * w) d)
    → (s : BitPair) × (gcrs_invert_bitmatrix (k * w) (selected_rows k w matrix ids) ≡ inverted s)
      × ((d : ℕ → Bool) (r : ℕ)
          → r < k * w
          → times (k * w) s.inv (received k w matrix d ids) r ≡ d r)
selected_rows-restores k w matrix ids pos determined =
    let rows = selected_rows k w matrix ids in
    let regular : IsRegular (k * w) rows = λ v zeros.
      determined v (λ r lt. sym (times-selected_rows k w matrix v ids r pos) ∙ zeros r lt) in
    let found = gcrs_invert_bitmatrix-regular (k * w) rows regular in
    (
      found.0,
      found.1,
      λ d r lt.
          parity-eq (k * w) (λ x. found.0.inv r x && received k w matrix d ids x)
            (λ x. found.0.inv r x && times (k * w) rows d x)
            (λ x lx.
              ap (λ z. found.0.inv r x && z) (sym (times-selected_rows k w matrix d ids x pos)))
          ∙ inverse-restores (k * w) found.0.inv rows d r found.2 lt,
    )

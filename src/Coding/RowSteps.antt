-- ===== src/Coding/RowSteps.antt =====
-- What each change of the two matrices of Coding/Invert.antt keeps.
use mathlib.Core.Bool.{xor}
use native.Mathlib.Decide.{ℕ_discrete}
use eset_store.Base.{
  ◌⊎◌, subst, ℕ, zero, suc, ◌+◌, ◌<◌, ◌≤◌, ◌≢◌, ◌≡◌, refl, sym, ◌∙◌, arith, Bool, false, ◌&&◌, ◌==◌,
  if◌then◌else◌, ne→not_eq, eq→==, inl, inr, Bool-cases,
}
use eset_store.Coding.Invert.{
  BitMatrix, BitPair, swap_rows, add_row, swap_in, clear_row, clear_column,
}
use eset_store.Coding.Parity.{parity, parity-xor, parity-eq, xor-and, xor-false}

-- A change of both matrices by operations on rows below n.
pub data RowSteps (n : ℕ) : BitPair → BitPair → Type 0 where
  stay : (s : BitPair) → RowSteps n s s
  swap : (i j : ℕ) (s : BitPair) → i < n → j < n → RowSteps n s (swap_in i j s)
  add :
      (i j : ℕ) (s : BitPair)
      → i < n
      → j < n
      → i ≢ j
      → RowSteps n s (record { mat = add_row i j s.mat; inv = add_row i j s.inv })
  trans : {s t u : BitPair} → RowSteps n s t → RowSteps n t u → RowSteps n s u

-- Row r of the product of a matrix with a vector.
abbrev pub times : ℕ → BitMatrix → (ℕ → Bool) → ℕ → Bool
times n a v r = parity n (λ k. a r k && v k)

-- The second matrix times the first one that there was is the first one.
abbrev pub Tracks : ℕ → BitMatrix → BitPair → Type 0
Tracks n start s = (r c : ℕ) → r < n → times n s.inv (λ k. start k c) r ≡ s.mat r c

abbrev pub IsZero : ℕ → (ℕ → Bool) → Type 0
IsZero n v = (r : ℕ) → r < n → v r ≡ false

times-swap_rows :
    (n i j : ℕ) (a : BitMatrix) (v : ℕ → Bool) (r : ℕ)
    → times n (swap_rows i j a) v r
      ≡ (if r == i then times n a v j else if r == j then times n a v i else times n a v r)
unfolding swap_rows
times-swap_rows n i j a v r = elim (Bool-cases (r == i)) [
  | inl t ↦ rw t refl
  | inr f ↦ elim (Bool-cases (r == j)) [ inl t ↦ rw (f, t) refl | inr g ↦ rw (f, g) refl ]
]

times-add_row :
    (n i j : ℕ) (a : BitMatrix) (v : ℕ → Bool) (r : ℕ)
    → times n (add_row i j a) v r
      ≡ (if r == j then xor (times n a v j) (times n a v i) else times n a v r)
unfolding add_row
times-add_row n i j a v r = elim (Bool-cases (r == j)) [
  | inl t ↦ rw t (
      parity-eq n (λ k. xor (a j k) (a i k) && v k) (λ k. xor (a j k && v k) (a i k && v k))
        (λ k lt. xor-and (a j k) (a i k) (v k))
      ∙ parity-xor n (λ k. a j k && v k) (λ k. a i k && v k))
  | inr f ↦ rw f refl
]

pub RowSteps-Tracks :
    {n : ℕ} {s t : BitPair} (start : BitMatrix)
    → RowSteps n s t
    → Tracks n start s
    → Tracks n start t
unfolding swap_in swap_rows add_row
RowSteps-Tracks start (stay s) h = h
RowSteps-Tracks {n} start (swap i j s p q) h =
    λ r c lt. times-swap_rows n i j s.inv (λ k. start k c) r ∙ rw (h j c q, h i c p, h r c lt) refl
RowSteps-Tracks {n} start (add i j s p q ne) h =
    λ r c lt. times-add_row n i j s.inv (λ k. start k c) r ∙ rw (h j c q, h i c p, h r c lt) refl
RowSteps-Tracks start (trans x y) h = RowSteps-Tracks start y (RowSteps-Tracks start x h)

swap_rows-IsZero :
    (n i j : ℕ) (a : BitMatrix) (v : ℕ → Bool)
    → i < n
    → j < n
    → IsZero n (times n (swap_rows i j a) v)
    → IsZero n (times n a v)
swap_rows-IsZero n i j a v p q h r lt = elim (ℕ_discrete r i) [
  | yes e ↦ subst (λ x. times n a v x ≡ false) (sym e) row_i
  | no ne ↦ elim (ℕ_discrete r j) [
    | yes e ↦ subst (λ x. times n a v x ≡ false) (sym e) row_j
    | no ne' ↦
        (rw (ne→not_eq r i ne, ne→not_eq r j ne') at (sym (times-swap_rows n i j a v r))) ∙ h r lt
  ]
]
  where
    row_j : times n a v j ≡ false
    row_j = (rw (eq→== i i refl) at (sym (times-swap_rows n i j a v i))) ∙ h i p

    row_i : times n a v i ≡ false
    row_i = elim (ℕ_discrete j i) [
      | yes e ↦ subst (λ x. times n a v x ≡ false) e row_j
      | no ne ↦
          (rw (ne→not_eq j i ne, eq→== j j refl) at (sym (times-swap_rows n i j a v j))) ∙ h j q
    ]

add_row-IsZero :
    (n i j : ℕ) (a : BitMatrix) (v : ℕ → Bool)
    → i < n
    → j < n
    → i ≢ j
    → IsZero n (times n (add_row i j a) v)
    → IsZero n (times n a v)
add_row-IsZero n i j a v p q ne h r lt = elim (ℕ_discrete r j) [
  | yes e ↦ subst (λ x. times n a v x ≡ false) (sym e) row_j
  | no ne' ↦ (rw (ne→not_eq r j ne') at (sym (times-add_row n i j a v r))) ∙ h r lt
]
  where
    row_i : times n a v i ≡ false
    row_i = (rw (ne→not_eq i j ne) at (sym (times-add_row n i j a v i))) ∙ h i p

    row_j : times n a v j ≡ false
    row_j =
        sym (xor-false (times n a v j))
        ∙ (rw (eq→== j j refl, row_i) at (sym (times-add_row n i j a v j)))
        ∙ h j q

-- No vector is sent to zero that was not before.
pub RowSteps-IsZero :
    {n : ℕ} {s t : BitPair} (v : ℕ → Bool)
    → RowSteps n s t
    → IsZero n (times n t.mat v)
    → IsZero n (times n s.mat v)
unfolding swap_in
RowSteps-IsZero v (stay s) h = h
RowSteps-IsZero {n} v (swap i j s p q) h = swap_rows-IsZero n i j s.mat v p q h
RowSteps-IsZero {n} v (add i j s p q ne) h = add_row-IsZero n i j s.mat v p q ne h
RowSteps-IsZero v (trans x y) h = RowSteps-IsZero v x (RowSteps-IsZero v y h)

clear_row-RowSteps :
    (n i j : ℕ) (s : BitPair) → i < n → j < n → i ≢ j → RowSteps n s (clear_row i j s)
unfolding clear_row
clear_row-RowSteps n i j s p q ne = elim (Bool-cases (s.mat j i)) [
  | inl t ↦ rw t (add i j s p q ne)
  | inr f ↦ rw f (stay s)
]

-- The inner loops, where row i is not one of theirs.
pub clear_column-RowSteps :
    (n i left j : ℕ) (s : BitPair)
    → i < n
    → j + left ≤ n
    → (i < j) ⊎ (j + left ≤ i)
    → RowSteps n s (clear_column i left j s)
unfolding clear_column
clear_column-RowSteps n i zero j s p q ne = stay s
clear_column-RowSteps n i (suc left) j s p q ne =
    trans (clear_row-RowSteps n i j s p (omega arith) (ground (arith, ne))) (
      clear_column-RowSteps n i left (j + 1) (clear_row i j s) p (omega arith) (ground (arith, ne)))

clear_row_other : (i j : ℕ) (s : BitPair) (r c : ℕ) → r ≢ j → (clear_row i j s).mat r c ≡ s.mat r c
unfolding clear_row add_row
clear_row_other i j s r c ne = elim (Bool-cases (s.mat j i)) [
  | inl t ↦ rw (t, ne→not_eq r j ne) refl
  | inr f ↦ rw f refl
]

clear_row_self :
    (i j : ℕ) (s : BitPair) (c : ℕ)
    → (clear_row i j s).mat j c ≡ xor (s.mat j c) (s.mat j i && s.mat i c)
unfolding clear_row add_row
clear_row_self i j s c = elim (Bool-cases (s.mat j i)) [
  | inl t ↦ rw (t, eq→== j j refl) refl
  | inr f ↦ rw f (sym (xor-false (s.mat j c)))
]

pub clear_column_outside :
    (i left j : ℕ) (s : BitPair) (r c : ℕ)
    → (r < j) ⊎ (j + left ≤ r)
    → (clear_column i left j s).mat r c ≡ s.mat r c
unfolding clear_column
clear_column_outside i zero j s r c out = refl
clear_column_outside i (suc left) j s r c out =
    clear_column_outside i left (j + 1) (clear_row i j s) r c (ground (arith, out))
    ∙ clear_row_other i j s r c (ground (arith, out))

-- In the rows of the loop column i is cleared and the other columns follow.
pub clear_column_inside :
    (i left j : ℕ) (s : BitPair) (r c : ℕ)
    → (i < j) ⊎ (j + left ≤ i)
    → j ≤ r
    → r < j + left
    → (clear_column i left j s).mat r c ≡ xor (s.mat r c) (s.mat r i && s.mat i c)
unfolding clear_column
clear_column_inside i zero j s r c ne lo hi = absurd (omega arith)
clear_column_inside i (suc left) j s r c ne lo hi = elim (ℕ_discrete r j) [
  | yes e ↦
      subst
        (λ x.
          (clear_column i left (j + 1) (clear_row i j s)).mat x c
          ≡ xor (s.mat x c) (s.mat x i && s.mat i c))
        (sym e)
        (clear_column_outside i left (j + 1) (clear_row i j s) j c (inl (omega arith))
          ∙ clear_row_self i j s c)
  | no ne' ↦
      clear_column_inside i left (j + 1) (clear_row i j s) r c (ground (arith, ne))
        (omega (arith, ne')) (omega arith)
      ∙ rw
          (
            clear_row_other i j s r c ne',
            clear_row_other i j s r i ne',
            clear_row_other i j s i c (ground (arith, ne)),
          )
          refl
]

-- ===== src/Coding/Kernel.antt =====
-- gcrs_invert_bitmatrix of Coding/Invert.antt finds the inverse of each matrix that has one.
use mathlib.Core.Bool.{xor, and_comm}
use native.Mathlib.Decide.{ℕ_discrete}
use eset_store.Base.{
  ℕ, zero, suc, ◌+◌, ◌<◌, ◌≤◌, ◌≢◌, ◌≡◌, refl, ap, sym, subst, ◌∙◌, arith, Bool, true, false, ◌&&◌,
  ◌==◌, ne→not_eq, eq→==, inl, inr,
}
use eset_store.Coding.Invert.{
  BitMatrix, BitPair, inverted, not_invertible, identity, gcrs_invert_bitmatrix,
}
use eset_store.Coding.Parity.{parity-eq, parity-xor, parity-one, xor-false, xor_self}
use eset_store.Coding.RowSteps.{times, IsZero, RowSteps-IsZero}
use eset_store.Coding.Upper.{IsUpper, IsStuck}
use eset_store.Coding.Inverse.{gcrs_invert_bitmatrix_lem}

-- The vector with cell j flipped if the bit is set.
flip : ℕ → Bool → (ℕ → Bool) → ℕ → Bool
flip j b v k = xor (v k) ((j == k) && b)

reorder : (x y e b : Bool) → (x && xor y (e && b)) ≡ xor (x && y) (e && (x && b))
unfolding xor
reorder x y e b = ground arith

times-flip :
    (n j : ℕ) (b : Bool) (a : BitMatrix) (v : ℕ → Bool) (r : ℕ)
    → j < n
    → times n a (flip j b v) r ≡ xor (times n a v r) (a r j && b)
unfolding flip
times-flip n j b a v r lt =
    parity-eq n (λ k. a r k && xor (v k) ((j == k) && b))
      (λ k. xor (a r k && v k) ((j == k) && (a r k && b)))
      (λ k lt. reorder (a r k) (v k) (j == k) b)
    ∙ parity-xor n (λ k. a r k && v k) (λ k. (j == k) && (a r k && b))
    ∙ ap (λ z. xor (times n a v r) z) (parity-one n j (λ k. a r k && b) lt)

unit_vector :
    (n i : ℕ) (mat : BitMatrix)
    → i < n
    → IsStuck n i mat
    → (r : ℕ) → i ≤ r
    → r < n
    → times n mat (λ k. i == k) r ≡ false
unit_vector n i mat lt stuck r lo hi =
    parity-eq n (λ k. mat r k && (i == k)) (λ k. (i == k) && mat r k)
      (λ k lt. and_comm (mat r k) (i == k))
    ∙ parity-one n i (λ k. mat r k) lt
    ∙ stuck r lo hi

-- Cell j is chosen so that row j sends the vector to zero as well.
next_cell :
    (n i j : ℕ) (mat : BitMatrix) (v : ℕ → Bool)
    → j < i
    → i < n
    → IsUpper n i mat
    → ((r : ℕ) → j + 1 ≤ r → r < n → times n mat v r ≡ false)
    → (r : ℕ) → j ≤ r
    → r < n
    → times n mat (flip j (times n mat v j) v) r ≡ false
next_cell n i j mat v p lt up sent r lo hi =
    times-flip n j (times n mat v j) mat v r (omega arith) ∙ elim (ℕ_discrete r j) [
      | yes q ↦
          subst (λ x. xor (times n mat v x) (mat x j && times n mat v j) ≡ false) (sym q)
            (rw (up j p).0 (xor_self (times n mat v j)))
      | no ne ↦
          rw (sent r (omega (arith, ne)) hi, (up j p).1 r (omega (arith, ne)) hi) (xor-false false)
    ]

flip_other : (i j : ℕ) (b : Bool) (v : ℕ → Bool) → j ≢ i → flip j b v i ≡ v i
unfolding flip
flip_other i j b v ne = rw (ne→not_eq j i ne) (xor-false (v i))

-- With a stuck column i there is a vector with a one in cell i that rows j to n send to zero; for
-- j = 0 that is all of them.
stuck_vector :
    (n i left j : ℕ) (mat : BitMatrix)
    → j + left ≡ i
    → i < n
    → IsUpper n i mat
    → IsStuck n i mat
    → (v : ℕ → Bool) × (v i ≡ true) × ((r : ℕ) → j ≤ r → r < n → times n mat v r ≡ false)
stuck_vector n i zero j mat e lt up stuck =
    ((λ k. i == k), eq→== i i refl, λ r lo hi. unit_vector n i mat lt stuck r (omega (arith, e)) hi)
stuck_vector n i (suc left) j mat e lt up stuck =
    let (v, one, sent) = stuck_vector n i left (j + 1) mat (omega (arith, e)) lt up stuck in
    (
      flip j (times n mat v j) v,
      flip_other i j (times n mat v j) v (λ q. absurd (omega (arith, e, q))) ∙ one,
      next_cell n i j mat v (omega (arith, e)) lt up sent,
    )

-- Where gcrs_invert_bitmatrix returns -1, the matrix sends a vector that is not zero to zero.
pub not_invertible-vector :
    (n : ℕ) (mat : BitMatrix) {s : BitPair}
    → gcrs_invert_bitmatrix n mat ≡ not_invertible s
    → (v : ℕ → Bool) × (i : ℕ) × (i < n) × (v i ≡ true) × IsZero n (times n mat v)
not_invertible-vector n mat {s} run = elim (gcrs_invert_bitmatrix_lem n mat) [
  | inl (s', run', inverse) ↦ absurd (cc)
  | inr (s', run', steps, j, lt, upper, stuck) ↦
      let (v, one, sent) = stuck_vector n j j 0 s'.mat (omega arith) lt upper stuck in
      (v, j, lt, one, RowSteps-IsZero v steps (λ r lr. sent r (omega arith) lr))
]

-- The matrix sends no vector to zero but zero.
abbrev pub IsRegular : ℕ → BitMatrix → Type 0
IsRegular n mat = (v : ℕ → Bool) → IsZero n (times n mat v) → IsZero n v

-- gcrs_invert_bitmatrix returns 0 for a matrix that sends no vector to zero but zero, and leaves its
-- inverse.
pub gcrs_invert_bitmatrix-regular :
    (n : ℕ) (mat : BitMatrix)
    → IsRegular n mat
    → (s : BitPair) × (gcrs_invert_bitmatrix n mat ≡ inverted s)
      × ((r c : ℕ) → r < n → c < n → times n s.inv (λ k. mat k c) r ≡ identity r c)
gcrs_invert_bitmatrix-regular n mat regular = elim (gcrs_invert_bitmatrix_lem n mat) [
  | inl found ↦ found
  | inr (s', run, steps, j, lt', upper, stuck) ↦
      let (v, i, lt, one, sent) = not_invertible-vector n mat run in
      absurd (cc (regular v sent i lt))
]

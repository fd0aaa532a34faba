-- ===== src/Coding/Inverse.antt =====
-- gcrs_invert_bitmatrix of Coding/Invert.antt inverts a matrix, or finds that it cannot be inverted.
use mathlib.Core.Bool.{xor}
use native.Mathlib.Decide.{ℕ_discrete, dec_lt}
use eset_store.Base.{
  ℕ, zero, suc, ◌<◌, ◌≤◌, ◌≢◌, ◌≡◌, ◌⊎◌, refl, sym, subst, ◌∙◌, arith, true, false, ◌&&◌, ◌==◌,
  ne→not_eq, eq→==, inl, inr,
}
use eset_store.Coding.Invert.{
  BitMatrix, BitPair, inverted, not_invertible, identity, clear_column, multiply_down,
  gcrs_invert_bitmatrix,
}
use eset_store.Coding.Parity.{parity-one, xor-and_self, xor-and-false}
use eset_store.Coding.RowSteps.{
  RowSteps, stay, trans, times, Tracks, RowSteps-Tracks, clear_column-RowSteps, clear_column_inside,
  clear_column_outside,
}
use eset_store.Coding.Upper.{IsUpper, IsStuck, to_upper-Ends}

-- From column i on the matrix is the identity.
abbrev IsDown : ℕ → ℕ → BitMatrix → Type 0
IsDown n i mat = (r c : ℕ) → r < n → i ≤ c → c < n → mat r c ≡ identity r c

-- In row i of an upper matrix there is no bit left of the diagonal.
left_of_diagonal :
    (n : ℕ) (mat : BitMatrix) (i c : ℕ) → IsUpper n n mat → c < i → i < n → mat i c ≡ false
left_of_diagonal n mat i c up lt p = (up c (omega arith)).1 i lt p

clear_up-IsUpper :
    (n i : ℕ) (s : BitPair) → i < n → IsUpper n n s.mat → IsUpper n n (clear_column i i 0 s).mat
clear_up-IsUpper n i s p up c lt = (
  elim (dec_lt c i) [
    | yes q ↦ keep c c q q ∙ (up c lt).0
    | no q ↦ clear_column_outside i i 0 s c c (inr (omega (arith, q))) ∙ (up c lt).0
  ],
  λ r below hi. elim (dec_lt r i) [
    | yes q ↦ keep r c q (omega arith) ∙ (up c lt).1 r below hi
    | no q ↦ clear_column_outside i i 0 s r c (inr (omega (arith, q))) ∙ (up c lt).1 r below hi
  ],
)
  where
    keep : (r c : ℕ) → r < i → c < i → (clear_column i i 0 s).mat r c ≡ s.mat r c
    keep r c q q' =
        clear_column_inside i i 0 s r c (inr (omega arith)) (omega arith) (omega arith)
        ∙ rw (left_of_diagonal n s.mat i c up q' p) (xor-and-false (s.mat r c) (s.mat r i))

clear_up-IsDown :
    (n i : ℕ) (s : BitPair)
    → i < n
    → IsUpper n n s.mat
    → IsDown n (suc i) s.mat
    → IsDown n i (clear_column i i 0 s).mat
unfolding identity
clear_up-IsDown n i s p up down r c lt lo hi = elim (dec_lt r i) [
  | yes q ↦
      clear_column_inside i i 0 s r c (inr (omega arith)) (omega arith) (omega arith)
      ∙ elim (ℕ_discrete c i) [
        | yes e ↦
            subst (λ x. xor (s.mat r x) (s.mat r i && s.mat i x) ≡ (r == x)) (sym e)
              (rw ((up i p).0, ne→not_eq r i (λ f. absurd (omega (arith, f))))
                (xor-and_self (s.mat r i)))
        | no ne ↦
            rw (right_of_diagonal c (λ f. ne (sym f)) lo hi)
              (xor-and-false (s.mat r c) (s.mat r i) ∙ down r c lt (omega (arith, ne)) hi)
      ]
  | no q ↦ clear_column_outside i i 0 s r c (inr (omega (arith, q))) ∙ below q
]
  where
    right_of_diagonal : (c : ℕ) → i ≢ c → i ≤ c → c < n → s.mat i c ≡ false
    right_of_diagonal c ne lo hi = down i c p (omega (arith, ne)) hi ∙ ne→not_eq i c ne

    below : (r < i → ⊥) → s.mat r c ≡ (r == c)
    below q = elim (ℕ_discrete i c) [
      | yes e ↦ elim (ℕ_discrete r c) [
        | yes f ↦ rw (eq→== r c f) (subst (λ x. s.mat x c ≡ true) (sym f) (up c hi).0)
        | no ne ↦ rw (ne→not_eq r c ne) ((up c hi).1 r (omega (arith, q, e, ne)) lt)
      ]
      | no ne ↦ down r c lt (omega (arith, ne)) hi
    ]

multiply_down_lem :
    (n i : ℕ) (s : BitPair)
    → i ≤ n
    → IsUpper n n s.mat
    → IsDown n i s.mat
    → RowSteps n s (multiply_down i s) × IsDown n 0 (multiply_down i s).mat
unfolding multiply_down
multiply_down_lem n zero s p up down = (stay s, down)
multiply_down_lem n (suc i) s p up down =
    let rest =
      multiply_down_lem n i (clear_column i i 0 s) (omega arith)
        (clear_up-IsUpper n i s (omega arith) up) (clear_up-IsDown n i s (omega arith) up down) in
    (
      trans (clear_column-RowSteps n i i 0 s (omega arith) (omega arith) (inr (omega arith)))
          rest.0,
      rest.1,
    )

-- The second matrix starts as the identity.
identity-Tracks : (n : ℕ) (mat : BitMatrix) → Tracks n mat (record { mat = mat; inv = identity })
unfolding identity
identity-Tracks n mat r c lt = parity-one n r (λ k. mat k c) lt

abbrev start : BitMatrix → BitPair
start mat = record { mat = mat; inv = identity }

-- What the function returns, with what it leaves: the inverse, or a matrix with a column that no row
-- has a bit for.
pub gcrs_invert_bitmatrix_lem :
    (n : ℕ) (mat : BitMatrix)
    → ((s : BitPair) × (gcrs_invert_bitmatrix n mat ≡ inverted s)
        × ((r c : ℕ) → r < n → c < n → times n s.inv (λ k. mat k c) r ≡ identity r c))
      ⊎ ((s : BitPair) × (gcrs_invert_bitmatrix n mat ≡ not_invertible s)
          × RowSteps n (start mat) s
          × (j : ℕ) × (j < n)
          × IsUpper n j s.mat
          × IsStuck n j s.mat)
unfolding gcrs_invert_bitmatrix
gcrs_invert_bitmatrix_lem n mat =
    elim (to_upper-Ends n n 0 (start mat) (omega arith) (λ c lt. absurd (omega arith))) [
      | inl (u, run, steps, upper) ↦
          let down =
            multiply_down_lem n n u (omega arith) upper (λ r c lr lo hi. absurd (omega arith)) in
          inl (
            multiply_down n u,
            rw run refl,
            λ r c lr lc.
                RowSteps-Tracks mat (trans steps down.0) (identity-Tracks n mat) r c lr
                ∙ down.1 r c lr (omega arith) lc,
          )
      | inr (u, run, steps, j, lt, upper, stuck) ↦ inr (u, rw run refl, steps, j, lt, upper, stuck)
    ]

-- Where gcrs_invert_bitmatrix returns 0, the matrix that it leaves in `inv`, times the one that it was
-- given, is the identity.
pub gcrs_invert_bitmatrix-inverse :
    (n : ℕ) (mat : BitMatrix) {s : BitPair}
    → gcrs_invert_bitmatrix n mat ≡ inverted s
    → (r c : ℕ) → r < n
    → c < n
    → times n s.inv (λ k. mat k c) r ≡ identity r c
gcrs_invert_bitmatrix-inverse n mat {s} run r c lr lc = elim (gcrs_invert_bitmatrix_lem n mat) [
  | inl (s', run', inverse) ↦
      let same : s' ≡ s = cc in
      subst (λ x. times n x.inv (λ k. mat k c) r ≡ identity r c) same (inverse r c lr lc)
  | inr (s', run', steps, j, lt, upper, stuck) ↦ absurd (cc)
]

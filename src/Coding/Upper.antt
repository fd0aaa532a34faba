-- ===== src/Coding/Upper.antt =====
-- The first pass of Coding/Invert.antt: where it ends, and in which form it leaves the matrix.
use mathlib.Core.Bool.{xor}
use native.Mathlib.Decide.{ℕ_discrete, dec_lt}
use eset_store.Base.{
  ℕ, zero, suc, ◌+◌, ◌<◌, ◌≤◌, ◌≡◌, ◌⊎◌, refl, sym, subst, ◌∙◌, arith, true, false, ◌&&◌, ◌==◌,
  ne→not_eq, eq→==, inl, inr, Bool-cases,
}
use eset_store.Coding.Invert.{
  BitMatrix, BitPair, inverted, not_invertible, swap_rows, swap_in, find_row, bring_row,
  clear_column, to_upper,
}
use eset_store.Coding.Parity.{xor-and_self, false-xor-and}
use eset_store.Coding.RowSteps.{
  RowSteps, stay, swap, trans, clear_column-RowSteps, clear_column_inside, clear_column_outside,
}

-- In the first i columns there is a bit on the diagonal and none below it.
abbrev pub IsUpper : ℕ → ℕ → BitMatrix → Type 0
IsUpper n i mat = (c : ℕ) → c < i → (mat c c ≡ true) × ((r : ℕ) → c < r → r < n → mat r c ≡ false)

-- Column i has no bit from row i on.
abbrev pub IsStuck : ℕ → ℕ → BitMatrix → Type 0
IsStuck n i mat = (r : ℕ) → i ≤ r → r < n → mat r i ≡ false

find_row-none :
    (mat : BitMatrix) (i left j : ℕ)
    → find_row mat i left j ≡ j + left
    → (r : ℕ) → j ≤ r
    → r < j + left
    → mat r i ≡ false
unfolding find_row
find_row-none mat i zero j e r lo hi = absurd (omega arith)
find_row-none mat i (suc left) j e r lo hi = elim (Bool-cases (mat j i)) [
  | inl t ↦ absurd (omega (arith, rw t at e))
  | inr f ↦ elim (ℕ_discrete r j) [
    | yes q ↦ subst (λ x. mat x i ≡ false) (sym q) f
    | no ne ↦
        find_row-none mat i left (j + 1) ((rw f at e) ∙ omega arith) r (omega (arith, ne))
          (omega arith)
  ]
]

find_row-some :
    (mat : BitMatrix) (i left j : ℕ)
    → (find_row mat i left j ≡ j + left)
      ⊎ ((j ≤ find_row mat i left j)
          × (find_row mat i left j < j + left)
          × (mat (find_row mat i left j) i ≡ true))
unfolding find_row
find_row-some mat i zero j = inl (omega arith)
find_row-some mat i (suc left) j = elim (Bool-cases (mat j i)) [
  | inl t ↦ rw t (inr (omega arith, omega arith, t))
  | inr f ↦ rw f (elim (find_row-some mat i left (j + 1)) [
    | inl e ↦ inl (omega (arith, e))
    | inr (lo, hi, t) ↦ inr (omega arith, omega arith, t)
  ])
]

swap_in-IsUpper :
    (n i j : ℕ) (s : BitPair) → i < j → j < n → IsUpper n i s.mat → IsUpper n i (swap_in i j s).mat
unfolding swap_in swap_rows
swap_in-IsUpper n i j s p q up c lt = (
  rw
      (
        ne→not_eq c i (λ e. absurd (omega (arith, e))),
        ne→not_eq c j (λ e. absurd (omega (arith, e))),
      )
      (up c lt).0,
  λ r below hi. elim (Bool-cases (r == i)) [
    | inl t ↦ rw t ((up c lt).1 j (omega arith) q)
    | inr f ↦ elim (Bool-cases (r == j)) [
      | inl t ↦ rw (f, t) ((up c lt).1 i lt (omega arith))
      | inr g ↦ rw (f, g) ((up c lt).1 r below hi)
    ]
  ],
)

swap_in_self : (i j : ℕ) (s : BitPair) → (swap_in i j s).mat i i ≡ s.mat j i
unfolding swap_in swap_rows
swap_in_self i j s = rw (eq→== i i refl) refl

-- The start of a round: a bit in its place on the diagonal, or a column without one.
bring_row_lem :
    (n left i : ℕ) (s : BitPair)
    → i + suc left ≡ n
    → IsUpper n i s.mat
    → ((s' : BitPair) × (bring_row i n (find_row s.mat i left (i + 1)) s ≡ inverted s')
        × RowSteps n s s'
        × IsUpper n i s'.mat
        × (s'.mat i i ≡ true))
      ⊎ ((bring_row i n (find_row s.mat i left (i + 1)) s ≡ not_invertible s) × IsStuck n i s.mat)
unfolding bring_row
bring_row_lem n left i s e up = elim (Bool-cases (s.mat i i)) [
  | inl t ↦ inl (s, rw t refl, stay s, up, t)
  | inr f ↦ elim (find_row-some s.mat i left (i + 1)) [
    | inl end ↦ inr (
      rw (f, eq→== (find_row s.mat i left (i + 1)) n (omega (arith, end, e))) refl,
      λ r lo hi. elim (ℕ_discrete r i) [
        | yes q ↦ subst (λ x. s.mat x i ≡ false) (sym q) f
        | no ne ↦ find_row-none s.mat i left (i + 1) end r (omega (arith, ne)) (omega (arith, e))
      ],
    )
    | inr (lo, hi, t) ↦ inl (
      swap_in i (find_row s.mat i left (i + 1)) s,
      rw (f, ne→not_eq (find_row s.mat i left (i + 1)) n (λ q. absurd (omega (arith, q, e)))) refl,
      swap i (find_row s.mat i left (i + 1)) s (omega arith) (omega arith),
      swap_in-IsUpper n i (find_row s.mat i left (i + 1)) s (omega arith) (omega arith) up,
      swap_in_self i (find_row s.mat i left (i + 1)) s ∙ t,
    )
  ]
]

-- A round clears column i below the diagonal.
clear_column-IsUpper :
    (n left i : ℕ) (s : BitPair)
    → i + suc left ≡ n
    → s.mat i i ≡ true
    → IsUpper n i s.mat
    → IsUpper n (i + 1) (clear_column i left (i + 1) s).mat
clear_column-IsUpper n left i s e t up c lt = (
  clear_column_outside i left (i + 1) s c c (inl lt) ∙ on_diagonal,
  λ r below hi. elim (dec_lt i r) [
    | yes p ↦
        clear_column_inside i left (i + 1) s r c (inl (omega arith)) (omega arith)
          (omega (arith, e))
        ∙ cleared r below hi
    | no p ↦
        clear_column_outside i left (i + 1) s r c (inl (omega (arith, p)))
        ∙ (up c (omega (arith, p))).1 r below hi
  ],
)
  where
    on_diagonal : s.mat c c ≡ true
    on_diagonal = elim (ℕ_discrete c i) [
      | yes q ↦ subst (λ x. s.mat x x ≡ true) (sym q) t
      | no ne ↦ (up c (omega (arith, ne))).0
    ]

    cleared : (r : ℕ) → c < r → r < n → xor (s.mat r c) (s.mat r i && s.mat i c) ≡ false
    cleared r below hi = elim (ℕ_discrete c i) [
      | yes q ↦
          subst (λ x. xor (s.mat r x) (s.mat r i && s.mat i x) ≡ false) (sym q)
            (rw t (xor-and_self (s.mat r i)))
      | no ne ↦
          rw
            (
              (up c (omega (arith, ne))).1 r below hi,
              (up c (omega (arith, ne))).1 i (omega (arith, ne)) (omega (arith, e)),
            )
            (false-xor-and (s.mat r i))
    ]

-- How the first pass ends: with a matrix in upper form, or in a column that no row has a bit for.
abbrev pub Ends : ℕ → ℕ → ℕ → BitPair → Type 0
Ends n left i s =
    ((s' : BitPair) × (to_upper n left i s ≡ inverted s') × RowSteps n s s' × IsUpper n n s'.mat)
    ⊎ ((s' : BitPair) × (to_upper n left i s ≡ not_invertible s')
        × RowSteps n s s'
        × (j : ℕ) × (j < n)
        × IsUpper n j s'.mat
        × IsStuck n j s'.mat)

pub to_upper-Ends :
    (n left i : ℕ) (s : BitPair) → i + left ≡ n → IsUpper n i s.mat → Ends n left i s
unfolding to_upper
to_upper-Ends n zero i s e up = inl (s, refl, stay s, λ c lt. up c (omega (arith, e)))
to_upper-Ends n (suc left) i s e up = elim (bring_row_lem n left i s e up) [
  | inl (s', run, steps, up', t) ↦
      elim (to_upper-Ends n left (i + 1) (clear_column i left (i + 1) s') (omega (arith, e))
        (clear_column-IsUpper n left i s' e t up')) [
          | inl (u, run', steps', upper) ↦
              inl (u, rw (run, run') refl, trans steps (trans (cleared s') steps'), upper)
          | inr (u, run', steps', j, lt, upper, stuck) ↦
              inr (
                u,
                rw (run, run') refl,
                trans steps (trans (cleared s') steps'),
                j,
                lt,
                upper,
                stuck,
              )
        ]
  | inr (run, stuck) ↦ inr (s, rw run refl, stay s, i, omega (arith, e), up, stuck)
]
  where
    cleared : (s' : BitPair) → RowSteps n s' (clear_column i left (i + 1) s')
    cleared s' =
        clear_column-RowSteps n i left (i + 1) s' (omega (arith, e)) (omega (arith, e))
          (inl (omega arith))

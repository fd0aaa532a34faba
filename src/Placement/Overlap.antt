-- ===== src/Placement/Overlap.antt =====
-- How the ESets of one group share its servers.
use native.Mathlib.Nat.{zero-mod, div-add-mod, add-mul-mod_self_left, mod-add-mod}
use native.Mathlib.Decide.{dec_lt, dec_le}
use eset_store.Base.{
  ap₂, subst, ℕ, zero, suc, ◌+◌, ◌-◌, ◌*◌, ◌/◌, ◌%◌, ◌≤◌, ◌<◌, ◌≡◌, ◌≢◌, refl, ap, sym, ◌∙◌, ◌⊎◌,
  inl, inr, arith,
}
use eset_store.Placement.ESet.{node_col}

div_below : (c s : ℕ) → s < c * c → s / c < c
div_below c s h = grind arith

-- Every row of a set has its node in a column that the group has.
pub node_col-lt : (c s r : ℕ) → s < c * c → node_col c s r < c
unfolding node_col
node_col-lt c s r h = ground (arith, div_below c s h)

-- A common summand can be left out on both sides.
mod_cancel : (c u v x : ℕ) → 0 < c → (x + u) % c ≡ (x + v) % c → u % c ≡ v % c
mod_cancel c u v x h e = sym (drop_summand u) ∙ ap (λ t. (t + (c * x - x)) % c) e ∙ drop_summand v
  where
    large : x ≤ c * x
    large = grind arith

    drop_summand : (w : ℕ) → ((x + w) % c + (c * x - x)) % c ≡ w % c
    drop_summand w =
        mod-add-mod (x + w) c (c * x - x)
        ∙ ap (λ t. t % c) (regroup w)
        ∙ add-mul-mod_self_left w c x
      where
        regroup : (w : ℕ) → x + w + (c * x - x) ≡ w + c * x
        regroup w = omega (arith, large)

-- The modulus has no zero divisors: it is prime (or 1).
abbrev pub IsFieldSize : ℕ → Type 0
IsFieldSize c = (x y : ℕ) → x < c → y < c → (x * y) % c ≡ 0 → (x ≡ 0) ⊎ (y ≡ 0)

-- Two sets `a * c + b` and `a' * c + b'` that agree in row `t + 1` and in row `t + d + 1`, with
-- `a' = a + k`: then `k * d` is a multiple of `c`.
slope_zero :
    (c a b b' k t d : ℕ)
    → 0 < c
    → (a * t + b) % c ≡ ((a + k) * t + b') % c
    → (a * (t + d) + b) % c ≡ ((a + k) * (t + d) + b') % c
    → (k * d) % c ≡ 0
slope_zero c a b b' k t d h e e' =
    sym (mod_cancel c 0 (k * d) (k * t + b') h (ap (λ n. n % c) (omega arith) ∙ sym low ∙ high))
    ∙ zero-mod c
  where
    low : b % c ≡ (k * t + b') % c
    low = mod_cancel c b (k * t + b') (a * t) h (e ∙ ap (λ n. n % c) (omega arith))

    high : b % c ≡ (k * t + b' + k * d) % c
    high = mod_cancel c b (k * t + b' + k * d) (a * (t + d)) h (e' ∙ ap (λ n. n % c) (omega arith))

-- What row `t + 1` computes to.
node_col-suc : (c s t : ℕ) → node_col c s (suc t) ≡ (s / c * t + s) % c
unfolding node_col
node_col-suc c s t = ground arith

node_col-zero : (c s : ℕ) → node_col c s 0 ≡ s / c
unfolding node_col
node_col-zero c s = refl

-- A set is known from its node in row 0 and its node in any other row.
same_of_row_zero :
    (c s s' t : ℕ) → 0 < c → s / c ≡ s' / c → (s / c * t + s) % c ≡ (s' / c * t + s') % c → s ≡ s'
same_of_row_zero c s s' t h q e =
    sym (div-add-mod s c) ∙ ap₂ (λ a b. c * a + b) q rest ∙ div-add-mod s' c
  where
    rest : s % c ≡ s' % c
    rest = mod_cancel c s s' (s / c * t) h (e ∙ ap (λ a. (a * t + s') % c) (sym q))

same_of_rows :
    (c s s' t d : ℕ)
    → 0 < c
    → IsFieldSize c
    → s' < c * c
    → 0 < d
    → d < c
    → s / c ≤ s' / c
    → (s / c * t + s) % c ≡ (s' / c * t + s') % c
    → (s / c * (t + d) + s) % c ≡ (s' / c * (t + d) + s') % c
    → s ≡ s'
same_of_rows c s s' t d h field l' d0 dc le e e' = same_of_row_zero c s s' t h quotients e
  where
    k : ℕ
    k = s' / c - s / c

    split : s / c + k ≡ s' / c
    split = omega arith

    none_of_two : (k ≡ 0) ⊎ (d ≡ 0) → k ≡ 0
    none_of_two (inl z) = z
    none_of_two (inr z) = absurd (omega arith)

    quotients : s / c ≡ s' / c
    quotients = omega (
      arith,
      split,
      none_of_two (
          field k d (omega (arith, div_below c s' l')) dc (
            slope_zero c (s / c) s s' k t d h (e ∙ ap (λ a. (a * t + s') % c) (sym split))
              (e' ∙ ap (λ a. (a * (t + d) + s') % c) (sym split)))),
    )

same_of_two :
    (c s s' t d : ℕ)
    → 0 < c
    → IsFieldSize c
    → s < c * c
    → s' < c * c
    → 0 < d
    → d < c
    → node_col c s (suc t) ≡ node_col c s' (suc t)
    → node_col c s (suc (t + d)) ≡ node_col c s' (suc (t + d))
    → s ≡ s'
same_of_two c s s' t d h field l l' d0 dc e e' = elim (dec_le (s / c) (s' / c)) [
  | yes le ↦ same_of_rows c s s' t d h field l' d0 dc le low high
  | no ge ↦ sym (same_of_rows c s' s t d h field l d0 dc (omega arith) (sym low) (sym high))
]
  where
    low : (s / c * t + s) % c ≡ (s' / c * t + s') % c
    low = sym (node_col-suc c s t) ∙ e ∙ node_col-suc c s' t

    high : (s / c * (t + d) + s) % c ≡ (s' / c * (t + d) + s') % c
    high = sym (node_col-suc c s (t + d)) ∙ e' ∙ node_col-suc c s' (t + d)

same_set :
    (c s s' r r' : ℕ)
    → IsFieldSize c
    → s < c * c
    → s' < c * c
    → r ≤ c
    → r' ≤ c
    → r ≢ r'
    → node_col c s r ≡ node_col c s' r
    → node_col c s r' ≡ node_col c s' r'
    → s ≡ s'
same_set c s s' zero zero field l l' le le' ne e e' = absurd (ne refl)
same_set c s s' zero (suc t) field l l' le le' ne e e' =
    same_of_row_zero c s s' t (omega arith) (sym (node_col-zero c s) ∙ e ∙ node_col-zero c s')
      (sym (node_col-suc c s t) ∙ e' ∙ node_col-suc c s' t)
same_set c s s' (suc t) zero field l l' le le' ne e e' =
    same_of_row_zero c s s' t (omega arith) (sym (node_col-zero c s) ∙ e' ∙ node_col-zero c s')
      (sym (node_col-suc c s t) ∙ e ∙ node_col-suc c s' t)
same_set c s s' (suc t) (suc u) field l l' le le' ne e e' = elim (dec_lt t u) [
  | yes lt ↦
      same_of_two c s s' t (u - t) (omega arith) field l l' (omega arith) (omega arith) e
        (shift t u (omega arith) e')
  | no ge ↦
      same_of_two c s s' u (t - u) (omega arith) field l l' (apart ge) (omega arith) e'
        (shift u t (omega arith) e)
]
  where
    above : (t u : ℕ) → t ≤ u → t + (u - t) ≡ u
    above t u h = omega arith

    apart : ¬ (t < u) → 0 < t - u
    apart ge = omega arith

    shift :
        (t u : ℕ)
        → t ≤ u
        → node_col c s (suc u) ≡ node_col c s' (suc u)
        → node_col c s (suc (t + (u - t))) ≡ node_col c s' (suc (t + (u - t)))
    shift t u h q = subst (λ m. node_col c s (suc m) ≡ node_col c s' (suc m)) (sym (above t u h)) q

-- Where the overlapping factor is a prime that is not below the number of the last row, two
-- different sets of a group have at most one server in common: if they share the column in one
-- row, then in every other row they have their nodes in different columns.
pub overlap_at_most_one :
    (c s s' r r' : ℕ)
    → IsFieldSize c
    → s < c * c
    → s' < c * c
    → r ≤ c
    → r' ≤ c
    → r ≢ r'
    → s ≢ s'
    → node_col c s r ≡ node_col c s' r
    → node_col c s r' ≢ node_col c s' r'
overlap_at_most_one c s s' r r' field l l' le le' ne apart e e' =
    apart (same_set c s s' r r' field l l' le le' ne e e')

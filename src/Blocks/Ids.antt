-- ===== src/Blocks/Ids.antt =====
-- Counting block groups by id, and the ids that ECMeta/BlockManagement.c gives to each thread.
use native.Mathlib.Decide.{ℕ_discrete}
use eset_store.Base.{
  ℕ, zero, suc, ◌+◌, ◌*◌, ◌≤◌, ◌<◌, ◌≡◌, ◌≢◌, refl, ap, sym, List, [], ◌∷◌, ◌++◌, ◌==◌,
  if◌then◌else◌, arith,
}
use eset_store.Placement.Manager.{EcBlockGroup}
use eset_store.Blocks.Groups.{BlockGroupManagement, id_step}

-- How many of the groups have this id.
abbrev pub count : ℕ → List EcBlockGroup → ℕ
count id [] = 0
count id (g ∷ gs) = (if g.block_group_id == id then 1 else 0) + count id gs

abbrev pub sum_below : ℕ → (ℕ → ℕ) → ℕ
sum_below zero f = 0
sum_below (suc n) f = sum_below n f + f n

-- The groups in use, and the groups in the manager's lists, by id.
abbrev pub count_all : BlockGroupManagement → List EcBlockGroup → ℕ → ℕ
count_all mgr held id =
    count id held + sum_below mgr.worker_th_num (λ t. count id (mgr.block_groups t))

pub sum_below-same :
    (n : ℕ) (f g : ℕ → ℕ) → ((t : ℕ) → t < n → f t ≡ g t) → sum_below n f ≡ sum_below n g
sum_below-same zero f g h = refl
sum_below-same (suc n) f g h =
    omega (arith, sum_below-same n f g (λ t l. h t (omega arith)), h n (omega arith))

-- The sum after one summand is replaced.
pub sum_below-replaced :
    (n th : ℕ) (f g : ℕ → ℕ)
    → th < n
    → ((t : ℕ) → t ≢ th → g t ≡ f t)
    → sum_below n g + f th ≡ sum_below n f + g th
sum_below-replaced zero th f g l h = absurd (omega arith)
sum_below-replaced (suc n) th f g l h = elim (ℕ_discrete n th) [
  | yes e ↦ omega (arith, sum_below-same n g f (λ t lt. h t (omega arith)), ap f e, ap g e)
  | no ne ↦ omega (arith, sum_below-replaced n th f g (omega arith) h, h n ne)
]

pub count-append :
    (id : ℕ) (xs ys : List EcBlockGroup) → count id (xs ++ ys) ≡ count id xs + count id ys
count-append id [] ys = omega arith
count-append id (x ∷ xs) ys = omega (arith, count-append id xs ys)

-- The `k`-th id that thread `t` of `w` threads gives out.
abbrev pub id_of : ℕ → ℕ → ℕ → ℕ
id_of w t k = id_step * (1 + t + w * k)

before_next : (w t t' k k' : ℕ) → t < w → t + w * k ≡ t' + w * k' → ¬ (k < k')
before_next w t t' k k' l e lt = grind (arith, above)
  where
    above : w * (k + 1) ≤ w * k'
    above = grind arith

pub id_of-injective :
    (w t t' k k' : ℕ) → t < w → t' < w → id_of w t k ≡ id_of w t' k' → (t ≡ t') × (k ≡ k')
id_of-injective w t t' k k' l l' e = (same_thread same, same)
  where
    plain : t + w * k ≡ t' + w * k'
    plain = omega arith

    same : k ≡ k'
    same = omega (arith, before_next w t t' k k' l plain, before_next w t' t k' k l' (sym plain))

    same_thread : k ≡ k' → t ≡ t'
    same_thread s = omega (arith, plain, ap (λ n. w * n) s)

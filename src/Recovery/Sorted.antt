-- ===== src/Recovery/Sorted.antt =====
-- sortSelectedNodes of Recovery/Nodes.antt.
use mathlib.Core.Option.{some-injective}
use eset_store.Base.{
  ℕ, zero, suc, ◌+◌, ◌≤◌, ◌≡◌, ◌⊎◌, refl, ap, sym, subst, ◌∙◌, arith, inl, inr, Bool, some, List,
  [], ◌∷◌, ltb, if◌then◌else◌, length, get_elem?, get_or, set, length-set, Bool-cases,
}
use eset_store.Placement.ESet.{ESetNode}
use eset_store.Recovery.Nodes.{select_min, swap_selected, sort_from, sort_selected_nodes}

-- Each node stands in this row or behind it.
abbrev pub AreBehind : ℕ → List ESetNode → Type 0
AreBehind row [] = Unit {0}
AreBehind row (n ∷ ns) = (row ≤ n.row) × AreBehind row ns

-- The nodes stand in the order of their rows.
abbrev pub IsSorted : List ESetNode → Type 0
IsSorted [] = Unit {0}
IsSorted (n ∷ ns) = AreBehind n.row ns × IsSorted ns

-- The number of nodes that the test holds for.
abbrev pub count : (ESetNode → Bool) → List ESetNode → ℕ
count f [] = 0
count f (n ∷ ns) = (if f n then 1 else 0) + count f ns

AreBehind-le : (a b : ℕ) (ns : List ESetNode) → a ≤ b → AreBehind b ns → AreBehind a ns
AreBehind-le a b [] h s = tt
AreBehind-le a b (n ∷ ns) h s = (omega (arith, s.0), AreBehind-le a b ns h s.1)

-- Either no node is in a lower row, or the index is that of a node of the lowest row.
IsLowest : ℕ → ESetNode → ℕ → List ESetNode → ℕ → Type 0
IsLowest selected node iter rest k =
    ((k ≡ selected) × AreBehind node.row rest)
    ⊎ ((j : ℕ) × (low : ESetNode) × (k ≡ iter + j)
        × (get_elem? rest j ≡ some low)
        × (low.row ≤ node.row)
        × AreBehind low.row rest)

select_min-IsLowest :
    (selected : ℕ) (node : ESetNode) (iter : ℕ) (rest : List ESetNode)
    → IsLowest selected node iter rest (select_min selected node iter rest)
unfolding select_min IsLowest
select_min-IsLowest selected node iter [] = inl (refl, tt)
select_min-IsLowest selected node iter (cur ∷ rest) = elim (Bool-cases (ltb cur.row node.row)) [
  | inl t ↦ rw t (elim (select_min-IsLowest iter cur (iter + 1) rest) [
    | inl (e, s) ↦ inr (0, cur, e ∙ omega arith, refl, ground (arith, t), (omega arith, s))
    | inr (j, low, e, at, le, s) ↦
        inr (suc j, low, e ∙ omega arith, at, ground (arith, t, le), (le, s))
  ])
  | inr f ↦ rw f (elim (select_min-IsLowest selected node (iter + 1) rest) [
    | inl (e, s) ↦ inl (e, (ground (arith, f), s))
    | inr (j, low, e, at, le, s) ↦
        inr (suc j, low, e ∙ omega arith, at, le, (ground (arith, f, le), s))
  ])
]

get_or-at :
    (ns : List ESetNode) (j : ℕ) (x low : ESetNode)
    → get_elem? ns j ≡ some low
    → get_or ns j x ≡ low
get_or-at [] j x low e = absurd (grind (arith, e))
get_or-at (n ∷ ns) zero x low e = some-injective n low e
get_or-at (n ∷ ns) (suc j) x low e = get_or-at ns j x low e

AreBehind-set :
    (row j : ℕ) (x : ESetNode) (ns : List ESetNode)
    → row ≤ x.row
    → AreBehind row ns
    → AreBehind row (set ns j x)
AreBehind-set row j x [] h s = tt
AreBehind-set row zero x (n ∷ ns) h s = (h, s.1)
AreBehind-set row (suc j) x (n ∷ ns) h s = (s.0, AreBehind-set row j x ns h s.1)

AreBehind-at :
    (row j : ℕ) (low : ESetNode) (ns : List ESetNode)
    → get_elem? ns j ≡ some low
    → AreBehind row ns
    → row ≤ low.row
AreBehind-at row j low [] e s = absurd (grind (arith, e))
AreBehind-at row zero low (n ∷ ns) e s = subst (λ m. row ≤ m.row) (some-injective n low e) s.0
AreBehind-at row (suc j) low (n ∷ ns) e s = AreBehind-at row j low ns e s.1

count-set :
    (f : ESetNode → Bool) (j : ℕ) (x low : ESetNode) (ns : List ESetNode)
    → get_elem? ns j ≡ some low
    → count f (set ns j x) + (if f low then 1 else 0) ≡ count f ns + (if f x then 1 else 0)
count-set f j x low [] e = absurd (grind (arith, e))
count-set f zero x low (n ∷ ns) e =
    subst
      (λ m.
        (if f x then 1 else 0) + count f ns + (if f m then 1 else 0)
        ≡ (if f n then 1 else 0) + count f ns + (if f x then 1 else 0))
      (some-injective n low e) (omega arith)
count-set f (suc j) x low (n ∷ ns) e = omega (arith, count-set f j x low ns e)

one_plus : (j : ℕ) → 1 + j ≡ suc j
one_plus j = omega arith

-- The first node after the swap is in the lowest row, and nothing is lost.
record IsSwapped (x : ESetNode) (xs : List ESetNode) (k : ℕ) : Type 0 where
  lowest : AreBehind (swap_selected x xs k).0.row (swap_selected x xs k).1
  sized : length (swap_selected x xs k).1 ≡ length xs

swapped : (x : ESetNode) (xs : List ESetNode) (k : ℕ) → IsLowest 0 x 1 xs k → IsSwapped x xs k
unfolding IsLowest swap_selected
swapped x xs k (inl (e, s)) = subst (IsSwapped x xs) (sym e) (record { lowest = s; sized = refl })
swapped x xs k (inr (j, low, e, at, le, s)) =
    subst (IsSwapped x xs) (sym (e ∙ one_plus j)) (record {
      lowest =
          subst (λ n. AreBehind n.row (set xs j x)) (sym (get_or-at xs j x low at))
            (AreBehind-set low.row j x xs le s);
      sized = length-set xs j x;
    })

swapped-AreBehind :
    (row : ℕ) (x : ESetNode) (xs : List ESetNode) (k : ℕ)
    → IsLowest 0 x 1 xs k
    → AreBehind row (x ∷ xs)
    → AreBehind row ((swap_selected x xs k).0 ∷ (swap_selected x xs k).1)
unfolding IsLowest swap_selected
swapped-AreBehind row x xs k (inl (e, s)) h =
    subst (λ n. AreBehind row ((swap_selected x xs n).0 ∷ (swap_selected x xs n).1)) (sym e) h
swapped-AreBehind row x xs k (inr (j, low, e, at, le, s)) h =
    subst (λ n. AreBehind row ((swap_selected x xs n).0 ∷ (swap_selected x xs n).1))
      (sym (e ∙ one_plus j))
      (
        subst (λ n. row ≤ n.row) (sym (get_or-at xs j x low at)) (AreBehind-at row j low xs at h.1),
        AreBehind-set row j x xs h.0 h.1,
      )

swapped-count :
    (f : ESetNode → Bool) (x : ESetNode) (xs : List ESetNode) (k : ℕ)
    → IsLowest 0 x 1 xs k
    → count f ((swap_selected x xs k).0 ∷ (swap_selected x xs k).1) ≡ count f (x ∷ xs)
unfolding IsLowest swap_selected
swapped-count f x xs k (inl (e, s)) =
    subst (λ n. count f ((swap_selected x xs n).0 ∷ (swap_selected x xs n).1) ≡ count f (x ∷ xs))
      (sym e) refl
swapped-count f x xs k (inr (j, low, e, at, le, s)) =
    subst (λ n. count f ((swap_selected x xs n).0 ∷ (swap_selected x xs n).1) ≡ count f (x ∷ xs))
      (sym (e ∙ one_plus j))
      (subst
        (λ n. (if f n then 1 else 0) + count f (set xs j x) ≡ (if f x then 1 else 0) + count f xs)
        (sym (get_or-at xs j x low at)) (omega (arith, count-set f j x low xs at)))

sort_from-AreBehind :
    (row left : ℕ) (nodes : List ESetNode)
    → AreBehind row nodes
    → AreBehind row (sort_from left nodes)
unfolding sort_from
sort_from-AreBehind row zero nodes h = h
sort_from-AreBehind row (suc left) [] h = h
sort_from-AreBehind row (suc left) (x ∷ xs) h =
    let k = select_min 0 x 1 xs in
    let s = swapped-AreBehind row x xs k (select_min-IsLowest 0 x 1 xs) h in
    (s.0, sort_from-AreBehind row left (swap_selected x xs k).1 s.1)

sort_from-IsSorted :
    (left : ℕ) (nodes : List ESetNode) → length nodes ≤ left → IsSorted (sort_from left nodes)
unfolding sort_from
sort_from-IsSorted zero [] h = tt
sort_from-IsSorted zero (x ∷ xs) h = absurd (omega arith)
sort_from-IsSorted (suc left) [] h = tt
sort_from-IsSorted (suc left) (x ∷ xs) h =
    let k = select_min 0 x 1 xs in
    let s = swapped x xs k (select_min-IsLowest 0 x 1 xs) in
    (
      sort_from-AreBehind (swap_selected x xs k).0.row left (swap_selected x xs k).1 s.lowest,
      sort_from-IsSorted left (swap_selected x xs k).1 (omega (arith, s.sized, h)),
    )

sort_from-count :
    (f : ESetNode → Bool) (left : ℕ) (nodes : List ESetNode)
    → count f (sort_from left nodes) ≡ count f nodes
unfolding sort_from
sort_from-count f zero nodes = refl
sort_from-count f (suc left) [] = refl
sort_from-count f (suc left) (x ∷ xs) =
    let k = select_min 0 x 1 xs in
    ap (λ n. (if f (swap_selected x xs k).0 then 1 else 0) + n)
      (sort_from-count f left (swap_selected x xs k).1)
    ∙ swapped-count f x xs k (select_min-IsLowest 0 x 1 xs)

-- sortSelectedNodes leaves the nodes in the order of their rows, and for every test as many nodes
-- that pass it as before.
pub sort_selected_nodes-sorts :
    (f : ESetNode → Bool) (nodes : List ESetNode)
    → IsSorted (sort_selected_nodes nodes) × (count f (sort_selected_nodes nodes) ≡ count f nodes)
unfolding sort_selected_nodes
sort_selected_nodes-sorts f nodes =
    (sort_from-IsSorted (length nodes) nodes (omega arith), sort_from-count f (length nodes) nodes)

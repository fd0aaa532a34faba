-- ===== src/Recovery/Waits.antt =====
-- A set in recovery between two reports of its head node (Recovery/Rounds.antt).
use mathlib.Core.Option.{some-injective}
use native.Mathlib.Decide.{ℕ_discrete}
use eset_store.Base.{
  ℕ, ◌+◌, ◌<◌, ◌≡◌, ◌≢◌, ◌⊎◌, refl, ap, sym, subst, ◌∙◌, arith, inl, inr, Bool, true, false, ◌&&◌,
  Option, some, List, [], ◌∷◌, ◌==◌, if◌then◌else◌, length, get_elem?, eq→==, ne→not_eq, Bool-cases,
}
use eset_store.Placement.Manager.{BlockGroupMapping, EcBlock, EcBlockGroup}
use eset_store.Recovery.Rounds.{first_unrecovered, mark_mapping}

abbrev pub NotId : ℕ → List BlockGroupMapping → Type 0
NotId id [] = Unit {0}
NotId id (m ∷ ms) = (id ≢ m.block_id) × NotId id ms

-- The block groups of a chain have different ids, none of them 0.
abbrev pub HasIds : List BlockGroupMapping → Type 0
HasIds [] = Unit {0}
HasIds (m ∷ ms) = (m.block_id ≢ 0) × NotId m.block_id ms × HasIds ms

-- The number of block groups that are not recovered.
abbrev pub unrecovered : List BlockGroupMapping → ℕ
unrecovered [] = 0
unrecovered (m ∷ ms) = (if m.recovered_flag == 1 then 0 else 1) + unrecovered ms

-- Is the block missing and not recovered?
abbrev pub lost : EcBlock → Bool
lost b = (b.missing_flag == 1) && (b.recovered_flag == 0)

-- There is a block in this row, and it is not lost.
abbrev pub IsHealed : List EcBlock → ℕ → Type 0
IsHealed blocks row = (b : EcBlock) × (get_elem? blocks row ≡ some b) × (lost b ≡ false)

-- Each block group of the chain has a block in this row, which is healed where the block group is
-- marked as recovered.
abbrev pub HasRow : (ℕ → EcBlockGroup) → ℕ → List BlockGroupMapping → Type 0
HasRow groups row [] = Unit {0}
HasRow groups row (m ∷ ms) =
    (row < length (groups m.block_group).blocks)
    × ((m.recovered_flag ≢ 1) ⊎ IsHealed (groups m.block_group).blocks row)
    × HasRow groups row ms

either :
    (b : Bool) (o : Option BlockGroupMapping) (c m : BlockGroupMapping)
    → (if b then o else some c) ≡ some m
    → ((b ≡ true) × (o ≡ some m)) ⊎ ((b ≡ false) × (c ≡ m))
either true o c m e = inl (refl, e)
either false o c m e = inr (refl, some-injective c m e)

first-cases :
    (c m : BlockGroupMapping) (cs : List BlockGroupMapping)
    → first_unrecovered (c ∷ cs) ≡ some m
    → (((c.recovered_flag == 1) ≡ true) × (first_unrecovered cs ≡ some m))
      ⊎ (((c.recovered_flag == 1) ≡ false) × (c ≡ m))
unfolding first_unrecovered
first-cases c m cs e = either (c.recovered_flag == 1) (first_unrecovered cs) c m e

none-some : (m : BlockGroupMapping) → first_unrecovered [] ≡ some m → ⊥
unfolding first_unrecovered
none-some m e = grind (arith, e)

first-ne :
    (q : ℕ) (m : BlockGroupMapping) (chain : List BlockGroupMapping)
    → first_unrecovered chain ≡ some m
    → NotId q chain
    → q ≢ m.block_id
first-ne q m [] e n = absurd (none-some m e)
first-ne q m (c ∷ cs) e n = elim (first-cases c m cs e) [
  | inl (t, later) ↦ first-ne q m cs later n.1
  | inr (f, same) ↦ λ h. n.0 (h ∙ ap (λ x. x.block_id) (sym same))
]

NotId-zero : (chain : List BlockGroupMapping) → HasIds chain → NotId 0 chain
NotId-zero [] d = tt
NotId-zero (m ∷ ms) d = ((λ e. d.0 (sym e)), NotId-zero ms d.2)

pub first-nonzero :
    (m : BlockGroupMapping) (chain : List BlockGroupMapping)
    → HasIds chain
    → first_unrecovered chain ≡ some m
    → m.block_id ≢ 0
first-nonzero m chain d e q = first-ne 0 m chain e (NotId-zero chain d) (sym q)

-- The first block group that is not recovered is the one that is marked, and the only one.
pub mark-first :
    (m : BlockGroupMapping) (chain : List BlockGroupMapping)
    → HasIds chain
    → first_unrecovered chain ≡ some m
    → ((mark_mapping m.block_id chain).1 ≡ some m.block_group)
      × (unrecovered (mark_mapping m.block_id chain).0 + 1 ≡ unrecovered chain)
unfolding mark_mapping
mark-first m [] d e = absurd (none-some m e)
mark-first m (c ∷ cs) d e = elim (first-cases c m cs e) [
  | inl (t, later) ↦
      let (found, left) = mark-first m cs d.2 later in
      rw (ne→not_eq c.block_id m.block_id (first-ne c.block_id m cs later d.1), t)
        (found, omega (arith, left))
  | inr (f, same) ↦
      rw (eq→== c.block_id m.block_id (ap (λ x. x.block_id) same), f)
        (ap (λ x. some x.block_group) same, omega arith)
]

NotId-mark :
    (q id : ℕ) (chain : List BlockGroupMapping) → NotId q chain → NotId q (mark_mapping id chain).0
unfolding mark_mapping
NotId-mark q id [] n = tt
NotId-mark q id (m ∷ ms) n = elim (Bool-cases (m.block_id == id)) [
  | inl t ↦ rw t n
  | inr f ↦ rw f (n.0, NotId-mark q id ms n.1)
]

pub HasIds-mark :
    (id : ℕ) (chain : List BlockGroupMapping) → HasIds chain → HasIds (mark_mapping id chain).0
unfolding mark_mapping
HasIds-mark id [] d = tt
HasIds-mark id (m ∷ ms) d = elim (Bool-cases (m.block_id == id)) [
  | inl t ↦ rw t d
  | inr f ↦ rw f (d.0, NotId-mark m.block_id id ms d.1, HasIds-mark id ms d.2)
]

row_kept :
    (groups groups' : ℕ → EcBlockGroup) (row g p : ℕ)
    → length (groups' g).blocks ≡ length (groups g).blocks
    → ((p : ℕ) → p ≢ g → groups' p ≡ groups p)
    → row < length (groups p).blocks
    → row < length (groups' p).blocks
row_kept groups groups' row g p sized same h = elim (ℕ_discrete p g) [
  | yes e ↦
      subst (λ q. row < length (groups' q).blocks) (sym e)
        (subst (λ n. row < n) (sym sized) (subst (λ q. row < length (groups q).blocks) e h))
  | no ne ↦ subst (λ x. row < length x.blocks) (sym (same p ne)) h
]

row_flag_kept :
    (groups groups' : ℕ → EcBlockGroup) (row g : ℕ) (m : BlockGroupMapping)
    → IsHealed (groups' g).blocks row
    → ((p : ℕ) → p ≢ g → groups' p ≡ groups p)
    → (m.recovered_flag ≢ 1) ⊎ IsHealed (groups m.block_group).blocks row
    → (m.recovered_flag ≢ 1) ⊎ IsHealed (groups' m.block_group).blocks row
row_flag_kept groups groups' row g m healed same (inl ne) = inl ne
row_flag_kept groups groups' row g m healed same (inr h) = elim (ℕ_discrete m.block_group g) [
  | yes e ↦ inr (subst (λ p. IsHealed (groups' p).blocks row) (sym e) healed)
  | no ne ↦ inr (subst (λ x. IsHealed x.blocks row) (sym (same m.block_group ne)) h)
]

HasRow-changed :
    (groups groups' : ℕ → EcBlockGroup) (row g : ℕ) (chain : List BlockGroupMapping)
    → IsHealed (groups' g).blocks row
    → length (groups' g).blocks ≡ length (groups g).blocks
    → ((p : ℕ) → p ≢ g → groups' p ≡ groups p)
    → HasRow groups row chain
    → HasRow groups' row chain
HasRow-changed groups groups' row g [] healed sized same h = tt
HasRow-changed groups groups' row g (m ∷ ms) healed sized same h = (
  row_kept groups groups' row g m.block_group sized same h.0,
  row_flag_kept groups groups' row g m healed same h.1,
  HasRow-changed groups groups' row g ms healed sized same h.2,
)

pub mark-none : (id g : ℕ) → (mark_mapping id []).1 ≡ some g → ⊥
unfolding mark_mapping
mark-none id g e = grind (arith, e)

pub mark-cases :
    (id g : ℕ) (m : BlockGroupMapping) (ms : List BlockGroupMapping)
    → (mark_mapping id (m ∷ ms)).1 ≡ some g
    → (m.block_group ≡ g) ⊎ ((mark_mapping id ms).1 ≡ some g)
unfolding mark_mapping
mark-cases id g m ms e = chosen (m.block_id == id) e
  where
    result : Bool → List BlockGroupMapping × Option ℕ
    result b =
        if b
        then (record m { recovered_flag = 1 } ∷ ms, some m.block_group)
        else (m ∷ (mark_mapping id ms).0, (mark_mapping id ms).1)

    chosen :
        (b : Bool) → (result b).1 ≡ some g → (m.block_group ≡ g) ⊎ ((mark_mapping id ms).1 ≡ some g)
    chosen true q = inl (some-injective m.block_group g q)
    chosen false q = inr q

-- The rest of the block groups while the block of the row is healed in one of them.
pub HasRow-mark :
    (groups groups' : ℕ → EcBlockGroup) (row g id : ℕ) (chain : List BlockGroupMapping)
    → IsHealed (groups' g).blocks row
    → length (groups' g).blocks ≡ length (groups g).blocks
    → ((p : ℕ) → p ≢ g → groups' p ≡ groups p)
    → (mark_mapping id chain).1 ≡ some g
    → HasRow groups row chain
    → HasRow groups' row (mark_mapping id chain).0
unfolding mark_mapping
HasRow-mark groups groups' row g id [] healed sized same found h = tt
HasRow-mark groups groups' row g id (m ∷ ms) healed sized same found h =
    elim (Bool-cases (m.block_id == id)) [
      | inl t ↦ rw t (
        row_kept groups groups' row g m.block_group sized same h.0,
        inr (subst (λ p. IsHealed (groups' p).blocks row) (sym (at t found)) healed),
        HasRow-changed groups groups' row g ms healed sized same h.2,
      )
      | inr f ↦ rw f (
        row_kept groups groups' row g m.block_group sized same h.0,
        row_flag_kept groups groups' row g m healed same h.1,
        HasRow-mark groups groups' row g id ms healed sized same (later f found) h.2,
      )
    ]
  where
    result : Bool → List BlockGroupMapping × Option ℕ
    result b =
        if b
        then (record m { recovered_flag = 1 } ∷ ms, some m.block_group)
        else (m ∷ (mark_mapping id ms).0, (mark_mapping id ms).1)

    at : (m.block_id == id) ≡ true → (mark_mapping id (m ∷ ms)).1 ≡ some g → m.block_group ≡ g
    at t e = some-injective m.block_group g (sym (ap (λ b. (result b).1) t) ∙ e)

    later :
        (m.block_id == id) ≡ false
        → (mark_mapping id (m ∷ ms)).1 ≡ some g
        → (mark_mapping id ms).1 ≡ some g
    later f e = sym (ap (λ b. (result b).1) f) ∙ e

-- ===== src/Placement/Group.antt =====
-- Filling the groups with servers: checkRackInGroup, createPlacementGroup and createPlacementGroups
-- of ECMeta/ESetPlacement.c. Memory that is not written yet has any contents.
use eset_store.Base.{
  ℕ, zero, suc, ◌+◌, ◌-◌, Bool, false, ◌||◌, Option, none, some, ltb, ◌==◌, if◌then◌else◌, ◌>>=◌,
}
use eset_store.Placement.ESet.{GroupNode, PlacementGroup}

-- The nodes of one group, and `serverIdxInRack`: how many servers of each rack are taken.
pub record Fill : Type 0 where
  pub nodes : ℕ → ℕ → GroupNode
  pub taken : ℕ → ℕ

-- `for (i = 0; i < n; ++i) if (test i) return 1; return 0;`
unfoldable pub any_below : ℕ → (ℕ → Bool) → Bool
any_below zero test = false
any_below (suc n) test = any_below n test || test n

-- The outer loop goes over the rows before `row`, and the test reads row `row` each time.
unfoldable pub check_rack_in_group : (ℕ → ℕ → GroupNode) → ℕ → ℕ → ℕ → Bool
unfolding any_below
check_rack_in_group nodes col_size row rack =
    any_below row (λ idx. any_below col_size (λ col. (nodes row col).rack_id == rack))

-- The rack with the most servers left, from rack `rack` on; `each - a > each - b` is `a < b`.
unfoldable pub max_rack : Fill → ℕ → ℕ → ℕ → ℕ → ℕ → ℕ
unfolding check_rack_in_group
max_rack f col_size row zero rack best = best
max_rack f col_size row (suc left) rack best = max_rack f col_size row left (rack + 1) (
    if check_rack_in_group f.nodes col_size row rack
    then best
    else if ltb (f.taken rack) (f.taken best)
    then rack
    else best)

unfoldable pub place : Fill → ℕ → ℕ → ℕ → Fill
place f row col rack = record {
  nodes = λ r c.
      if r == row
      then (if c == col
          then record { rack_id = rack; server_id_in_rack = f.taken rack }
          else f.nodes r c)
      else f.nodes r c;
  taken = λ k. if k == rack then f.taken rack + 1 else f.taken k;
}

-- The `for` over the columns that are left: it ends with the row, or with the rack. The number is
-- that of the columns that are left then.
unfoldable pub fill_from_rack : ℕ → ℕ → ℕ → ℕ → ℕ → Fill → ℕ × Fill
unfolding place
fill_from_rack each row col rack zero f = (0, f)
fill_from_rack each row col rack (suc left) f =
    let f' = place f row col rack in
    let rest = fill_from_rack each row (col + 1) rack left f' in
    if f'.taken rack == each then (left, f') else rest

-- `while (choosedNodesForCol != colSize)`; each round fills at least one column. Without racks
-- `serverIdxInRack` has no place, and a round is a fault.
unfoldable pub fill_row : ℕ → ℕ → ℕ → ℕ → ℕ → ℕ → Fill → Option Fill
unfolding max_rack fill_from_rack
fill_row zero each racks col_size row left f = if left == 0 then some f else none
fill_row (suc fuel) each racks col_size row left f =
    let best = max_rack f col_size row racks 0 0 in
    let (left', f') = fill_from_rack each row (col_size - left) best left f in
    let rest = fill_row fuel each racks col_size row left' f' in
    if left == 0 then some f else if racks == 0 then none else rest

-- The rows that are left, from row `row` on.
unfoldable pub fill_rows : ℕ → ℕ → ℕ → ℕ → ℕ → Fill → Option Fill
unfolding fill_row
fill_rows each racks col_size zero row f = some f
fill_rows each racks col_size (suc left) row f =
    fill_row col_size each racks col_size row col_size f >>= λ f'.
    fill_rows each racks col_size left (row + 1) f'

-- `createPlacementGroup`, over memory `fresh`.
unfoldable pub create_placement_group :
    ℕ → ℕ → ℕ → ℕ → (ℕ → ℕ → GroupNode) → (ℕ → ℕ) → Option (PlacementGroup × (ℕ → ℕ))
unfolding fill_rows
create_placement_group row_size col_size each racks fresh taken =
    fill_rows each racks col_size row_size 0 (record { nodes = fresh; taken = taken }) >>= λ f.
    some (record { group_nodes = f.nodes; row_size = row_size; col_size = col_size }, f.taken)

-- `createPlacementGroups`: the groups that are left, the first of them with index `idx`.
unfoldable pub create_placement_groups :
    ℕ
    → ℕ
    → ℕ
    → ℕ
    → (ℕ → ℕ → ℕ → GroupNode)
    → ℕ
    → ℕ
    → (ℕ → PlacementGroup)
    → (ℕ → ℕ)
    → Option ((ℕ → PlacementGroup) × (ℕ → ℕ))
unfolding create_placement_group
create_placement_groups row_size col_size each racks fresh zero idx groups taken =
    some (groups, taken)
create_placement_groups row_size col_size each racks fresh (suc left) idx groups taken =
    create_placement_group row_size col_size each racks (fresh idx) taken >>= λ (group, taken').
    create_placement_groups row_size col_size each racks fresh left (idx + 1)
      (λ i. if i == idx then group else groups i) taken'

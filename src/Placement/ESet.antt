-- ===== src/Placement/ESet.antt =====
-- Groups and their ESets: createGroupESets and createESets of ECMeta/ESetPlacement.c.
-- An array is a function of its index; a size beside it says how far it goes.
use eset_store.Base.{
  ℕ, zero, suc, ◌+◌, ◌-◌, ◌*◌, ◌/◌, ◌%◌, List, [], ◌++◌, ◌==◌, if◌then◌else◌, tabulate,
}

pub record GroupNode : Type 0 where
  pub rack_id : ℕ
  pub server_id_in_rack : ℕ

pub record PlacementGroup : Type 0 where
  pub group_nodes : ℕ → ℕ → GroupNode
  pub row_size : ℕ
  pub col_size : ℕ

pub record ESetNode : Type 0 where
  pub rack_id : ℕ
  pub server_id_in_rack : ℕ
  pub row : ℕ
  pub col : ℕ
  pub failed_flag : ℕ
  pub recovered_flag : ℕ

-- `groupId`, which no code sets, is left out.
pub record ESets : Type 0 where
  pub set_nodes : List ESetNode
  pub size : ℕ
  pub eset_id : ℕ
  pub failed_server_num : ℕ
  pub recovering_flag : ℕ
  pub redo_recover : ℕ

-- `cIdx`: the column that row `row` of the set has its node in.
unfoldable pub node_col : ℕ → ℕ → ℕ → ℕ
node_col col_size set row =
    if row == 0 then set / col_size else (set / col_size * (row - 1) + set) % col_size

unfoldable pub eset_node : PlacementGroup → ℕ → ℕ → ESetNode
unfolding node_col
eset_node group set row =
    let col = node_col group.col_size set row in
    let node = group.group_nodes row col in
    record {
      rack_id = node.rack_id;
      server_id_in_rack = node.server_id_in_rack;
      row = row;
      col = col;
      failed_flag = 0;
      recovered_flag = 0;
    }

unfoldable pub create_eset : PlacementGroup → ℕ → ℕ → ESets
unfolding eset_node
create_eset group start set = record {
  set_nodes = tabulate group.row_size 0 (eset_node group set);
  size = group.row_size;
  eset_id = start + set;
  failed_server_num = 0;
  recovering_flag = 0;
  redo_recover = 0;
}

unfoldable pub create_group_esets : PlacementGroup → ℕ → List ESets
unfolding create_eset
create_group_esets group start =
    tabulate (group.col_size * group.col_size) 0 (create_eset group start)

-- The groups have one column size, that of the first group of the array.
unfoldable pub create_esets : (ℕ → PlacementGroup) → ℕ → ℕ → List ESets
unfolding create_group_esets
create_esets groups zero group_idx = []
create_esets groups (suc left) group_idx =
    create_group_esets (groups group_idx) ((groups 0).col_size * (groups 0).col_size * group_idx)
    ++ create_esets groups left (group_idx + 1)

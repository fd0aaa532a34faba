-- ===== src/Placement/Manager.antt =====
-- The placement manager: setServersPlacementGroup, createPlacementMgr, requestPlacement,
-- removeBlockGroupMapping and assignESetsToGroup of ECMeta/ESetPlacement.c.
-- A block group is known by a number that stands for its address.
use eset_store.Base.{
  ℕ, zero, suc, ◌+◌, ◌*◌, ◌/◌, ◌%◌, ◌&&◌, Option, none, some, List, [], ◌∷◌, ltb, leb, ◌==◌,
  if◌then◌else◌, ◌>>=◌, get_or,
}
use eset_store.Placement.ESet.{GroupNode, PlacementGroup, ESetNode, ESets, create_esets}
use eset_store.Placement.Group.{create_placement_groups}

-- The fields of a `Server_t` that say where it stands.
pub record ServerPlace : Type 0 where
  pub group_id : ℕ
  pub group_row_id : ℕ
  pub group_col_id : ℕ

abbrev pub ServerMap : Type 0
ServerMap = ℕ → ℕ → ServerPlace

-- The three writes into the record of a node's server.
unfoldable pub put_place : GroupNode → ServerPlace → ServerMap → ServerMap
put_place node place servers rack server =
    if rack == node.rack_id && server == node.server_id_in_rack then place else servers rack server

-- There are `racks` racks, and rack `i` has an array of `room i` servers; a server outside of it is
-- a fault.
unfoldable pub set_server : ℕ → (ℕ → ℕ) → GroupNode → ServerPlace → ServerMap → Option ServerMap
unfolding put_place
set_server racks room node place servers =
    if ltb node.rack_id racks && ltb node.server_id_in_rack (room node.rack_id)
    then some (put_place node place servers)
    else none

-- The three nested loops, each over the rounds that are left.
unfoldable pub set_row : ℕ → (ℕ → ℕ) → PlacementGroup → ℕ → ℕ → ℕ → ℕ → ServerMap → Option ServerMap
unfolding set_server
set_row racks room group g r zero c servers = some servers
set_row racks room group g r (suc left) c servers =
    set_server racks room (group.group_nodes r c)
      (record { group_id = g; group_row_id = r; group_col_id = c }) servers
    >>= λ next. set_row racks room group g r left (c + 1) next

unfoldable pub set_group : ℕ → (ℕ → ℕ) → PlacementGroup → ℕ → ℕ → ℕ → ServerMap → Option ServerMap
unfolding set_row
set_group racks room group g zero r servers = some servers
set_group racks room group g (suc left) r servers =
    set_row racks room group g r group.col_size 0 servers >>= λ next.
    set_group racks room group g left (r + 1) next

unfoldable pub set_servers_placement_group :
    ℕ → (ℕ → ℕ) → (ℕ → PlacementGroup) → ℕ → ℕ → ServerMap → Option ServerMap
unfolding set_group
set_servers_placement_group racks room groups zero g servers = some servers
set_servers_placement_group racks room groups (suc left) g servers =
    set_group racks room (groups g) g (groups g).row_size 0 servers >>= λ next.
    set_servers_placement_group racks room groups left (g + 1) next

-- A `BlockGroupMapping_t`. Its `pre` is NULL: newBlockGroupMapping sets it so, and the one line that
-- sets it otherwise comes after a write through it.
pub record BlockGroupMapping : Type 0 where
  pub block_id : ℕ
  pub block_group : ℕ
  pub recovered_flag : ℕ

-- The sizes that createPlacementMgr is called with, the rack map and the lock are left out.
pub record PlacementManager : Type 0 where
  pub groups : ℕ → PlacementGroup
  pub group_size : ℕ
  pub esets : ℕ → ESets
  pub esets_size : ℕ
  pub block_group_map : ℕ → List BlockGroupMapping
  pub place_idx : ℕ

-- What an array cell that createESets did not write holds.
abbrev pub no_eset : ESets
no_eset = record {
  set_nodes = [];
  size = 0;
  eset_id = 0;
  failed_server_num = 0;
  recovering_flag = 0;
  redo_recover = 0;
}

-- `racks` racks, the first of `each` servers, with `room i` in the array of rack `i`; `n_size` rows of
-- `factor` columns to a group. The division by their product comes first.
unfoldable pub create_placement_mgr :
    ℕ
    → ℕ
    → (ℕ → ℕ)
    → ℕ
    → ℕ
    → (ℕ → ℕ → ℕ → GroupNode)
    → (ℕ → PlacementGroup)
    → ServerMap
    → Option (PlacementManager × ServerMap)
unfolding create_placement_groups set_servers_placement_group create_esets
create_placement_mgr racks each room n_size factor fresh memory servers =
    let count = each * racks / (n_size * factor) in
    let made =
      create_placement_groups n_size factor each racks fresh count 0 memory (λ k. 0)
      >>= λ (groups, taken).
          set_servers_placement_group racks room groups count 0 servers >>= λ servers'. some (
            record {
              groups = groups;
              group_size = count;
              esets = λ i. get_or (create_esets groups count 0) i no_eset;
              esets_size = count * factor * factor;
              block_group_map = λ i. [];
              place_idx = 0;
            },
            servers',
          ) in
    if n_size * factor == 0 then none else made

-- The search for a set without failed servers, from `idx` on; it ends when it is back at `start`.
unfoldable pub find_healthy : ℕ → (ℕ → ESets) → ℕ → ℕ → ℕ → ℕ
find_healthy zero esets n start idx = idx
find_healthy (suc fuel) esets n start idx =
    let next = (idx + 1) % n in
    let rest = find_healthy fuel esets n start next in
    if ltb 0 (esets idx).failed_server_num then (if start == next then next else rest) else idx

-- The set, and the manager after the call: the mapping goes where `placeIdx` stands afterwards.
unfoldable pub request_placement : PlacementManager → ℕ → ℕ → ESets × PlacementManager
unfolding find_healthy
request_placement mgr block_group_id block_group =
    let found = find_healthy mgr.esets_size mgr.esets mgr.esets_size mgr.place_idx mgr.place_idx in
    let next = (found + 1) % mgr.esets_size in
    let mapping : BlockGroupMapping = record {
      block_id = block_group_id;
      block_group = block_group;
      recovered_flag = if ltb 0 (mgr.esets found).failed_server_num then 1 else 0;
    } in
    (
      mgr.esets found,
      record mgr {
        place_idx = next;
        block_group_map =
            λ i. if i == next then mapping ∷ mgr.block_group_map next else mgr.block_group_map i;
      },
    )

unfoldable pub remove_head :
    PlacementManager → ℕ → ℕ → List BlockGroupMapping → Option PlacementManager
remove_head mgr idx block_id [] = none
remove_head mgr idx block_id (head ∷ rest) =
    if head.block_id == block_id
    then some
        (record mgr { block_group_map = λ i. if i == idx then rest else mgr.block_group_map i })
    else none

-- `none`: the chain is empty, or its head is another block, whose `pre` is NULL.
unfoldable pub remove_block_group_mapping : PlacementManager → ℕ → ℕ → Option PlacementManager
unfolding remove_head
remove_block_group_mapping mgr eset_idx block_id =
    if leb mgr.esets_size eset_idx
    then some mgr
    else remove_head mgr eset_idx block_id (mgr.block_group_map eset_idx)

pub record EcBlock : Type 0 where
  pub block_id : ℕ
  pub server_id : ℕ
  pub rack_id : ℕ
  pub missing_flag : ℕ
  pub recovered_flag : ℕ
  pub block_size : ℕ

pub record EcBlockGroup : Type 0 where
  pub block_group_id : ℕ
  pub block_group_size : ℕ
  pub blocks : List EcBlock
  pub set_idx : ℕ

unfoldable pub place_block : EcBlock → ESetNode → EcBlock
place_block b node = record b { rack_id = node.rack_id; server_id = node.server_id_in_rack }

-- Each block goes to the node of its index; too few nodes are a fault.
unfoldable pub assign_blocks : List EcBlock → List ESetNode → Option (List EcBlock)
unfolding place_block
assign_blocks [] nodes = some []
assign_blocks (b ∷ bs) [] = none
assign_blocks (b ∷ bs) (node ∷ nodes) =
    assign_blocks bs nodes >>= λ rest. some (place_block b node ∷ rest)

unfoldable pub assign_esets_to_group : EcBlockGroup → ESets → Option EcBlockGroup
unfolding assign_blocks
assign_esets_to_group group esets = assign_blocks group.blocks esets.set_nodes >>= λ blocks.
    some (record group { set_idx = esets.eset_id; blocks = blocks })

-- ===== src/Placement/Tests.antt =====
-- The placement theorems at a group of two racks with two servers each, and runs of the code there.
use native.Mathlib.Omega.{arith}
use native.Mathlib.Decide.{ℕ_discrete}
use eset_store.Base.{
  ℕ, ◌+◌, ◌*◌, ◌%◌, ◌≤◌, ◌<◌, ◌⊎◌, false, ◌≡◌, ◌≢◌, refl, ap, inl, inr, none, some, [], ◌∷◌, map,
  get_elem?, length, ◌==◌, if◌then◌else◌,
}
use eset_store.Placement.ESet.{GroupNode, PlacementGroup, ESets, node_col, create_eset}
use eset_store.Placement.Group.{Fill, max_rack, check_rack_in_group, create_placement_groups}
use eset_store.Placement.Overlap.{IsFieldSize, overlap_at_most_one}
use eset_store.Placement.Groups.{AreGroups, create_placement_groups-AreGroups}
use eset_store.Placement.Manager.{
  ServerMap, BlockGroupMapping, PlacementManager, no_eset, create_placement_mgr, request_placement,
  remove_block_group_mapping, EcBlock, EcBlockGroup, assign_esets_to_group,
}
use eset_store.Placement.Request.{
  IsFirstHealthy, found_idx, request_placement_lem, request_placement_misfiles,
  request_placement-remove_faults,
}
use eset_store.Placement.Spread.{HasDistinctServers, assign_esets_to_group_spreads}
use eset_store.Placement.Created.{create_placement_mgr_lem}

-- Row `r` holds the servers of rack `r`.
abbrev small_group : PlacementGroup
small_group = record {
  group_nodes = λ r c. record { rack_id = r; server_id_in_rack = c };
  row_size = 2;
  col_size = 2;
}

abbrev unwritten : ℕ → ℕ → GroupNode
unwritten r c = record { rack_id = 9; server_id_in_rack = 9 }

abbrev unwritten_groups : ℕ → PlacementGroup
unwritten_groups g = record { group_nodes = unwritten; row_size = 0; col_size = 0 }

abbrev no_places : ServerMap
no_places rack server = record { group_id = 7; group_row_id = 7; group_col_id = 7 }

small_group-HasDistinctServers : HasDistinctServers small_group
small_group-HasDistinctServers r c r' c' hr hc hr' hc' e e' = (e, e')

small_groups : AreGroups (λ g. small_group) 2 2 2 0 1 (λ k. 0)
small_groups = record {
  sized = λ g l h. (refl, refl);
  free_before = λ g r c l h hr hc. omega arith;
  disjoint = λ g r c g' r' c' l h hr hc l' h' hr' hc' e e'. (omega arith, e, e');
  racks_exist = λ g r c l h hr hc. hr;
}

two-IsFieldSize : IsFieldSize 2
two-IsFieldSize x y hx hy e = elim (ℕ_discrete x 0) [
  | yes z ↦ inl z
  | no ne ↦ inr (omega (arith, ap (λ t. (t * y) % 2) (one ne), e))
]
  where
    one : x ≢ 0 → x ≡ 1
    one ne = omega arith

-- sets 1 and 3 share the server in row 1
overlap_at_most_one_example : node_col 2 1 0 ≢ node_col 2 3 0
unfolding node_col
overlap_at_most_one_example =
    overlap_at_most_one 2 1 3 1 0 two-IsFieldSize (omega arith) (omega arith) (omega arith)
      (omega arith) (omega arith) (omega arith) refl

create_placement_groups-AreGroups_example :
    (groups : ℕ → PlacementGroup) × (taken : ℕ → ℕ) × (create_placement_groups 2 2 2 2
        (λ g. unwritten)
        1
        0
        unwritten_groups
        (λ k. 0)
      ≡ some (groups, taken))
    × AreGroups groups 2 2 2 0 1 (λ k. 0)
    × ((f : Fill) (row : ℕ)
        → (max_rack f 2 row 2 0 0 < 2)
          × ((k : ℕ)
              → k < 2
              → check_rack_in_group f.nodes 2 row k ≡ false
              → f.taken (max_rack f 2 row 2 0 0) ≤ f.taken k))
create_placement_groups-AreGroups_example =
    create_placement_groups-AreGroups 2 2 2 2 1 (λ g. unwritten) unwritten_groups (omega arith)

create_placement_mgr_lem_example :
    (groups : ℕ → PlacementGroup) × (taken : ℕ → ℕ) × (create_placement_groups 2 2 2 2
        (λ g. unwritten)
        1
        0
        unwritten_groups
        (λ k. 0)
      ≡ some (groups, taken))
    × (((create_placement_mgr 2 2 (λ i. 2) 2 2 (λ g. unwritten) unwritten_groups no_places ≡ none)
          × (g r c : ℕ) × (g < 1)
          × (r < 2)
          × (c < 2)
          × (2 ≤ ((groups g).group_nodes r c).server_id_in_rack))
        ⊎ ((mgr : PlacementManager) × (servers' : ServerMap) × (create_placement_mgr 2 2
                (λ i. 2)
                2
                2
                (λ g. unwritten)
                unwritten_groups
                no_places
              ≡ some (mgr, servers'))
            × (mgr.groups ≡ groups)
            × (mgr.group_size ≡ 1)
            × (mgr.esets_size ≡ 1 * 2 * 2)
            × (mgr.place_idx ≡ 0)
            × ((i : ℕ) → mgr.block_group_map i ≡ [])
            × ((g r c : ℕ)
                → g < 1
                → r < 2
                → c < 2
                → (((groups g).group_nodes r c).server_id_in_rack < 2)
                  × (servers'
                        ((groups g).group_nodes r c).rack_id
                        ((groups g).group_nodes r c).server_id_in_rack
                      ≡ record { group_id = g; group_row_id = r; group_col_id = c }))))
create_placement_mgr_lem_example =
    create_placement_mgr_lem 2 2 (λ i. 2) 2 2 (λ g. unwritten) unwritten_groups no_places
      (omega arith) (omega arith)

-- With two servers in each rack the manager is made, and server (1, 0) is in row 0 and column 0.
create_placement_mgr_run :
    (o : PlacementManager × ServerMap) × (create_placement_mgr 2 2
        (λ i. 2)
        2
        2
        (λ g. unwritten)
        unwritten_groups
        no_places
      ≡ some o)
    × ((o.1 1 0).group_id ≡ 0)
unfolding create_placement_mgr
create_placement_mgr_run = (_, refl, refl)

-- a block group with a block for each row
abbrev block : ℕ → EcBlock
block id = record {
  block_id = id;
  server_id = 0;
  rack_id = 0;
  missing_flag = 0;
  recovered_flag = 0;
  block_size = 0;
}

abbrev new_group : EcBlockGroup
new_group = record {
  block_group_id = 64;
  block_group_size = 0;
  blocks = block 64 ∷ block 65 ∷ [];
  set_idx = 0;
}

assign_esets_to_group_run :
    (o : EcBlockGroup) × (assign_esets_to_group new_group (create_eset small_group 0 3) ≡ some o)
    × (map (λ b. b.rack_id) o.blocks ≡ 0 ∷ 1 ∷ [])
    × (map (λ b. b.server_id) o.blocks ≡ 1 ∷ 1 ∷ [])
unfolding assign_esets_to_group create_eset
assign_esets_to_group_run = (_, refl, refl, refl)

assign_esets_to_group_spreads_example :
    (after : EcBlockGroup) × (assign_esets_to_group new_group (create_eset small_group 0 3)
      ≡ some after)
    × (after.set_idx ≡ 3)
    × (length after.blocks ≡ 2)
    × ((i : ℕ)
        → i < 2
        → (b : EcBlock) × (get_elem? after.blocks i ≡ some b)
          × (b.rack_id ≡ (small_group.group_nodes i (node_col 2 3 i)).rack_id)
          × (b.server_id ≡ (small_group.group_nodes i (node_col 2 3 i)).server_id_in_rack))
    × ((i j : ℕ)
        → i < 2
        → j < 2
        → (b b' : EcBlock) → get_elem? after.blocks i ≡ some b
        → get_elem? after.blocks j ≡ some b'
        → b.rack_id ≡ b'.rack_id
        → b.server_id ≡ b'.server_id
        → i ≡ j)
assign_esets_to_group_spreads_example =
    assign_esets_to_group_spreads small_group 0 3 new_group (omega arith) refl
      small_group-HasDistinctServers

-- Four sets; set 1 has a failed server.
abbrev one_failed : ℕ → ESets
one_failed i = record no_eset { eset_id = i; failed_server_num = if i == 1 then 1 else 0 }

abbrev manager : PlacementManager
manager = record {
  groups = λ g. small_group;
  group_size = 1;
  esets = one_failed;
  esets_size = 4;
  block_group_map = λ i. [];
  place_idx = 1;
}

request_placement_lem_example :
    let (sets, mgr') = request_placement manager 64 5 in
    (found : ℕ) × IsFirstHealthy one_failed 4 1 found
    × (found < 4)
    × (sets ≡ one_failed found)
    × (mgr'.place_idx ≡ (found + 1) % 4)
    × (mgr'.place_idx < mgr'.esets_size)
request_placement_lem_example = request_placement_lem manager 64 5 (omega arith)

request_placement_misfiles_example :
    let mgr' = (request_placement manager 64 5).1 in
    ((mapping : BlockGroupMapping) × (mapping.block_group ≡ 5)
      × (mgr'.block_group_map ((found_idx manager + 1) % 4) ≡ mapping ∷ []))
    × (mgr'.block_group_map (found_idx manager) ≡ [])
request_placement_misfiles_example =
    request_placement_misfiles manager 64 5 (omega arith) (omega arith)

request_placement-remove_faults_example :
    remove_block_group_mapping (request_placement manager 64 5).1 2 64 ≡ none
unfolding request_placement
request_placement-remove_faults_example =
    request_placement-remove_faults manager 64 5 (omega arith) (omega arith) refl

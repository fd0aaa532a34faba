-- ===== src/Placement/Created.antt =====
-- What createPlacementMgr sets up.
use eset_store.Base.{
  get_or, ℕ, ◌*◌, ◌/◌, ◌≤◌, ◌<◌, ◌≡◌, refl, ◌⊎◌, inl, inr, none, some, [], arith, false, ◌==◌,
  ne→not_eq,
}
use eset_store.Placement.ESet.{GroupNode, PlacementGroup, create_esets}
use eset_store.Placement.Group.{create_placement_groups}
use eset_store.Placement.Groups.{create_placement_groups-AreGroups}
use eset_store.Placement.Located.{put_all-at}
use eset_store.Placement.Manager.{PlacementManager, ServerMap, no_eset, create_placement_mgr}
use eset_store.Placement.Places.{IsInside, put_all, set_servers_placement_group-cases}

-- `createPlacementMgr` on one rack or more and groups of one row and column or more, where rack `i` has an array of `room i` servers. Either a
-- node of the groups that `createPlacementGroups` makes has a number that the array of its rack has
-- no server for, and the call writes outside its memory; or it ends with a manager of as many groups
-- as whole groups fit into the servers, with the square of the overlapping factor many sets to a
-- group and no mappings, the node in row `r` and column `c` of group `g` is a server of its rack, and
-- that server has `g`, `r` and `c` in its record.
pub create_placement_mgr_lem :
    (racks each : ℕ) (room : ℕ → ℕ) (n_size factor : ℕ) (fresh : ℕ → ℕ → ℕ → GroupNode)
    (memory : ℕ → PlacementGroup) (servers : ServerMap)
    → 0 < racks
    → 0 < n_size * factor
    → let count = each * racks / (n_size * factor) in
      (groups : ℕ → PlacementGroup) × (taken : ℕ → ℕ) × (create_placement_groups n_size factor each
          racks fresh count 0 memory
          (λ k. 0)
        ≡ some (groups, taken))
      × (((create_placement_mgr racks each room n_size factor fresh memory servers ≡ none)
            × (g r c : ℕ) × (g < count)
            × (r < n_size)
            × (c < factor)
            × (room ((groups g).group_nodes r c).rack_id
                ≤ ((groups g).group_nodes r c).server_id_in_rack))
          ⊎ ((mgr : PlacementManager) × (servers' : ServerMap) × (create_placement_mgr racks each
                  room n_size factor fresh memory servers
                ≡ some (mgr, servers'))
              × (mgr.groups ≡ groups)
              × (mgr.group_size ≡ count)
              × (mgr.esets_size ≡ count * factor * factor)
              × (mgr.place_idx ≡ 0)
              × ((i : ℕ) → mgr.block_group_map i ≡ [])
              × ((g r c : ℕ)
                  → g < count
                  → r < n_size
                  → c < factor
                  → (((groups g).group_nodes r c).server_id_in_rack
                      < room ((groups g).group_nodes r c).rack_id)
                    × (servers'
                          ((groups g).group_nodes r c).rack_id
                          ((groups g).group_nodes r c).server_id_in_rack
                        ≡ record { group_id = g; group_row_id = r; group_col_id = c }))))
unfolding create_placement_mgr
create_placement_mgr_lem racks each room n_size factor fresh memory servers pos sized =
    let (groups, taken, e, all, _) =
      create_placement_groups-AreGroups n_size factor each racks count fresh memory pos in
    (
      groups,
      taken,
      e,
      elim (set_servers_placement_group-cases racks room groups count 0 servers) [
        | inl (e', g, r, c, _, hg, hr, hc, out) ↦
            let (rows_are, cols_are) = all.sized g (omega arith) (omega arith) in
            let exists =
              all.racks_exist g r c (omega arith) (omega arith) (omega arith) (omega arith) in
            inl (
              rw (not_zero, e, e'),
              g,
              r,
              c,
              omega arith,
              omega arith,
              omega arith,
              at_end exists out,
            )
        | inr (e', inside) ↦ inr (
          record {
            groups = groups;
            group_size = count;
            esets = λ i. get_or (create_esets groups count 0) i no_eset;
            esets_size = count * factor * factor;
            block_group_map = λ i. [];
            place_idx = 0;
          },
          put_all groups count 0 servers,
          rw (not_zero, e, e'),
          refl,
          refl,
          refl,
          refl,
          λ i. refl,
          λ g r c hg hr hc.
              let (rows_are, cols_are) = all.sized g (omega arith) (omega arith) in
              (
                (inside g r c (omega arith) (omega arith) (omega arith) (omega arith)).1,
                put_all-at all servers g r c hg hr hc,
              ),
        )
      ],
    )
  where
    not_zero : (n_size * factor == 0) ≡ false
    not_zero = ne→not_eq (n_size * factor) 0 (omega arith)

    count : ℕ
    count = each * racks / (n_size * factor)

    inside_or_not : (a b : ℕ) → (a < b) ⊎ (b ≤ a)
    inside_or_not a b = ground arith

    at_end :
        {node : GroupNode}
        → node.rack_id < racks
        → ¬ IsInside racks room node
        → room node.rack_id ≤ node.server_id_in_rack
    at_end {node} exists out = elim (inside_or_not node.server_id_in_rack (room node.rack_id)) [
      | inl h ↦ absurd (out (exists, h))
      | inr h ↦ h
    ]

-- ===== src/Placement/Places.antt =====
-- Where setServersPlacementGroup of Placement/Manager.antt faults, and what it writes otherwise.
use eset_store.Base.{
  ℕ, zero, suc, ◌+◌, ◌≤◌, ◌<◌, ◌≡◌, refl, ◌⊎◌, inl, inr, ◌&&◌, arith, none, some, ltb, Bool-cases,
}
use eset_store.Placement.ESet.{GroupNode, PlacementGroup}
use eset_store.Placement.Manager.{
  ServerPlace, ServerMap, put_place, set_server, set_row, set_group, set_servers_placement_group,
}

-- The writes alone, as they are on racks with enough servers.
unfoldable pub put_row : PlacementGroup → ℕ → ℕ → ℕ → ℕ → ServerMap → ServerMap
put_row group g r zero c servers = servers
put_row group g r (suc left) c servers = put_row group g r left (c + 1) (
    put_place (group.group_nodes r c) (record { group_id = g; group_row_id = r; group_col_id = c })
      servers)

unfoldable pub put_group : PlacementGroup → ℕ → ℕ → ℕ → ServerMap → ServerMap
put_group group g zero r servers = servers
put_group group g (suc left) r servers =
    put_group group g left (r + 1) (put_row group g r group.col_size 0 servers)

unfoldable pub put_all : (ℕ → PlacementGroup) → ℕ → ℕ → ServerMap → ServerMap
put_all groups zero g servers = servers
put_all groups (suc left) g servers =
    put_all groups left (g + 1) (put_group (groups g) g (groups g).row_size 0 servers)

pub first_or_later : (a b : ℕ) → a ≤ b → (b ≡ a) ⊎ (a + 1 ≤ b)
first_or_later a b h = ground arith

module _ (racks : ℕ) (room : ℕ → ℕ) where
  -- The rack of the node exists and has a server of the node's number.
  abbrev pub IsInside : GroupNode → Type 0
  IsInside node = (node.rack_id < racks) × (node.server_id_in_rack < room node.rack_id)

  set_server_cases :
      (node : GroupNode) (p : ServerPlace) (m : ServerMap)
      → ((set_server racks room node p m ≡ none) × ¬ IsInside node)
        ⊎ ((set_server racks room node p m ≡ some (put_place node p m)) × IsInside node)
  unfolding set_server
  set_server_cases node p m =
      elim (Bool-cases (ltb node.rack_id racks && ltb node.server_id_in_rack (room node.rack_id))) [
        | inl inside ↦ inr (rw inside, (ground arith, ground arith))
        | inr outside ↦ inl (rw outside, λ (a, b). ground arith)
      ]

  set_row_cases :
      (group : PlacementGroup) (g r left c : ℕ) (m : ServerMap)
      → ((set_row racks room group g r left c m ≡ none)
          × (c' : ℕ) × (c' < c + left)
          × ¬ IsInside (group.group_nodes r c'))
        ⊎ ((set_row racks room group g r left c m ≡ some (put_row group g r left c m))
            × ((c' : ℕ) → c ≤ c' → c' < c + left → IsInside (group.group_nodes r c')))
  unfolding set_row put_row
  set_row_cases group g r zero c m = inr (refl, λ c' l h. absurd (omega arith))
  set_row_cases group g r (suc left) c m =
      elim (set_server_cases (group.group_nodes r c)
        (record { group_id = g; group_row_id = r; group_col_id = c }) m) [
          | inl (e, out) ↦ inl (rw e, c, omega arith, out)
          | inr (e, inside) ↦
              elim (set_row_cases group g r left (c + 1) (
                put_place (group.group_nodes r c)
                  (record { group_id = g; group_row_id = r; group_col_id = c }) m)) [
                    | inl (e', c', h, out) ↦ inl (rw (e, e'), c', omega arith, out)
                    | inr (e', all) ↦ inr (rw (e, e'), from_next c left inside all)
                  ]
        ]
    where
      from_next :
          (c left : ℕ)
          → IsInside (group.group_nodes r c)
          → ((c' : ℕ) → c + 1 ≤ c' → c' < c + 1 + left → IsInside (group.group_nodes r c'))
          → (c' : ℕ) → c ≤ c'
          → c' < c + suc left
          → IsInside (group.group_nodes r c')
      from_next c left inside all c' l h = elim (first_or_later c c' l) [
        | inl e ↦ rw e inside
        | inr later ↦ all c' later (omega arith)
      ]

  set_group_cases :
      (group : PlacementGroup) (g left r : ℕ) (m : ServerMap)
      → ((set_group racks room group g left r m ≡ none)
          × (r' c' : ℕ) × (r' < r + left)
          × (c' < group.col_size)
          × ¬ IsInside (group.group_nodes r' c'))
        ⊎ ((set_group racks room group g left r m ≡ some (put_group group g left r m))
            × ((r' c' : ℕ)
                → r ≤ r'
                → r' < r + left
                → c' < group.col_size
                → IsInside (group.group_nodes r' c')))
  unfolding set_group put_group
  set_group_cases group g zero r m = inr (refl, λ r' c' l h. absurd (omega arith))
  set_group_cases group g (suc left) r m = elim (set_row_cases group g r group.col_size 0 m) [
    | inl (e, c', h, out) ↦ inl (rw e, r, c', omega arith, omega arith, out)
    | inr (e, inside) ↦
        elim (set_group_cases group g left (r + 1) (put_row group g r group.col_size 0 m)) [
          | inl (e', r', c', h, h', out) ↦ inl (rw (e, e'), r', c', omega arith, h', out)
          | inr (e', all) ↦ inr (
            rw (e, e'),
            λ r' c' l h hc. elim (first_or_later r r' l) [
              | inl same ↦ rw same (inside c' (omega arith) (omega arith))
              | inr later ↦ all r' c' later (omega arith) hc
            ],
          )
        ]
  ]

  -- A fault is at a node that no rack has a server for; without such a node all the writes are done.
  pub set_servers_placement_group-cases :
      (groups : ℕ → PlacementGroup) (left g : ℕ) (m : ServerMap)
      → ((set_servers_placement_group racks room groups left g m ≡ none)
          × (g' r' c' : ℕ) × (g ≤ g')
          × (g' < g + left)
          × (r' < (groups g').row_size)
          × (c' < (groups g').col_size)
          × ¬ IsInside ((groups g').group_nodes r' c'))
        ⊎ ((set_servers_placement_group racks room groups left g m ≡ some (put_all groups left g m))
            × ((g' r' c' : ℕ)
                → g ≤ g'
                → g' < g + left
                → r' < (groups g').row_size
                → c' < (groups g').col_size
                → IsInside ((groups g').group_nodes r' c')))
  unfolding set_servers_placement_group put_all
  set_servers_placement_group-cases groups zero g m =
      inr (refl, λ g' r' c' l h. absurd (omega arith))
  set_servers_placement_group-cases groups (suc left) g m =
      elim (set_group_cases (groups g) g (groups g).row_size 0 m) [
        | inl (e, r', c', h, h', out) ↦
            inl (rw e, g, r', c', omega arith, omega arith, omega arith, h', out)
        | inr (e, inside) ↦
            elim (set_servers_placement_group-cases groups left (g + 1)
              (put_group (groups g) g (groups g).row_size 0 m)) [
                | inl (e', g', r', c', l, h, hr, hc, out) ↦
                    inl (rw (e, e'), g', r', c', omega arith, omega arith, hr, hc, out)
                | inr (e', all) ↦ inr (
                  rw (e, e'),
                  λ g' r' c' l h hr hc. elim (first_or_later g g' l) [
                    | inl same ↦
                        let hr' : r' < (groups g).row_size = rw same at hr in
                        rw same (inside r' c' (omega arith) (omega (arith, hr')) (rw same at hc))
                    | inr later ↦ all g' r' c' later (omega arith) hr hc
                  ],
                )
              ]
      ]

-- ===== src/Placement/Located.antt =====
-- The records of the servers after the writes of setServersPlacementGroup of
-- Placement/Manager.antt.
use eset_store.Base.{
  ℕ, zero, suc, ◌+◌, ◌≤◌, ◌<◌, ◌≡◌, refl, ◌∙◌, inl, inr, ◌&&◌, arith, ◌==◌, Bool-cases, eq→==,
}
use eset_store.Placement.ESet.{GroupNode, PlacementGroup}
use eset_store.Placement.Groups.{AreGroups}
use eset_store.Placement.Manager.{ServerPlace, ServerMap, put_place}
use eset_store.Placement.Places.{put_row, put_group, put_all, first_or_later}

-- What the server map says of the server of a node.
abbrev at_node : ServerMap → GroupNode → ServerPlace
at_node servers node = servers node.rack_id node.server_id_in_rack

abbrev IsSame : GroupNode → GroupNode → Type 0
IsSame a b = (a.rack_id ≡ b.rack_id) × (a.server_id_in_rack ≡ b.server_id_in_rack)

put_place_self :
    (node : GroupNode) (p : ServerPlace) (m : ServerMap) → at_node (put_place node p m) node ≡ p
unfolding put_place
put_place_self node p m =
    rw (
      eq→== node.rack_id node.rack_id refl,
      eq→== node.server_id_in_rack node.server_id_in_rack refl,
    )

put_place_ne :
    (node other : GroupNode) (p : ServerPlace) (m : ServerMap)
    → ¬ IsSame other node
    → at_node (put_place node p m) other ≡ at_node m other
unfolding put_place
put_place_ne node other p m ne =
    elim (Bool-cases
      (other.rack_id == node.rack_id && other.server_id_in_rack == node.server_id_in_rack)) [
        | inl same ↦ absurd (ne (ground arith, ground arith))
        | inr differ ↦ rw differ
      ]

module _ (group : PlacementGroup) (g : ℕ) where
  abbrev place_of : ℕ → ℕ → ServerPlace
  place_of r c = record { group_id = g; group_row_id = r; group_col_id = c }

  -- A server that is in none of the places left keeps its entry.
  put_row_other :
      (r left c : ℕ) (m : ServerMap) (other : GroupNode)
      → ((c' : ℕ) → c ≤ c' → c' < c + left → ¬ IsSame other (group.group_nodes r c'))
      → at_node (put_row group g r left c m) other ≡ at_node m other
  unfolding put_row
  put_row_other r zero c m other ne = refl
  put_row_other r (suc left) c m other ne =
      put_row_other r left (c + 1) (put_place (group.group_nodes r c) (place_of r c) m) other
        (λ c' l h. ne c' (omega arith) (omega arith))
      ∙ put_place_ne (group.group_nodes r c) other (place_of r c) m
          (ne c (omega arith) (omega arith))

  put_group_other :
      (left r : ℕ) (m : ServerMap) (other : GroupNode)
      → ((r' c' : ℕ)
          → r ≤ r'
          → r' < r + left
          → c' < group.col_size
          → ¬ IsSame other (group.group_nodes r' c'))
      → at_node (put_group group g left r m) other ≡ at_node m other
  unfolding put_group
  put_group_other zero r m other ne = refl
  put_group_other (suc left) r m other ne =
      put_group_other left (r + 1) (put_row group g r group.col_size 0 m) other
        (λ r' c' l h hc. ne r' c' (omega arith) (omega arith) hc)
      ∙ put_row_other r group.col_size 0 m other
          (λ c' l h. ne r c' (omega arith) (omega arith) (omega arith))

  module _
      (distinct : (r c r' c' : ℕ)
        → r < group.row_size
        → c < group.col_size
        → r' < group.row_size
        → c' < group.col_size
        → IsSame (group.group_nodes r c) (group.group_nodes r' c')
        → (r ≡ r') × (c ≡ c')) where
    put_row_at :
        (r left c : ℕ) (m : ServerMap) (d : ℕ)
        → r < group.row_size
        → c + left ≡ group.col_size
        → c ≤ d
        → d < group.col_size
        → at_node (put_row group g r left c m) (group.group_nodes r d) ≡ place_of r d
    unfolding put_row
    put_row_at r zero c m d hr e l h = absurd (omega arith)
    put_row_at r (suc left) c m d hr e l h = elim (first_or_later c d l) [
      | inl here ↦ rw here (
          put_row_other r left (c + 1) (put_place (group.group_nodes r c) (place_of r c) m)
            (group.group_nodes r c)
            (λ c' l' h' same.
              let (rows, cols) = distinct r c r c' hr (omega arith) hr (omega arith) same in
              omega arith)
          ∙ put_place_self (group.group_nodes r c) (place_of r c) m)
      | inr later ↦
          put_row_at r left (c + 1) (put_place (group.group_nodes r c) (place_of r c) m) d hr
            (omega arith) later h
    ]

    put_group_at :
        (left r : ℕ) (m : ServerMap) (r' d : ℕ)
        → r + left ≡ group.row_size
        → r ≤ r'
        → r' < group.row_size
        → d < group.col_size
        → at_node (put_group group g left r m) (group.group_nodes r' d) ≡ place_of r' d
    unfolding put_group
    put_group_at zero r m r' d e l h hd = absurd (omega arith)
    put_group_at (suc left) r m r' d e l h hd = elim (first_or_later r r' l) [
      | inl here ↦ rw here (
          put_group_other left (r + 1) (put_row group g r group.col_size 0 m)
            (group.group_nodes r d)
            (λ r'' c' l' h' hc same.
              let (rows, cols) = distinct r d r'' c' (omega arith) hd (omega arith) hc same in
              omega arith)
          ∙ put_row_at r group.col_size 0 m d (omega arith) (omega arith) (omega arith) hd)
      | inr later ↦
          put_group_at left (r + 1) (put_row group g r group.col_size 0 m) r' d (omega arith) later
            h hd
    ]

module _ {groups : ℕ → PlacementGroup} {racks rows size count : ℕ} {start : ℕ → ℕ}
    (v : AreGroups groups racks rows size 0 count start) where
  set_servers_other :
      (left g : ℕ) (m : ServerMap) (g' r' c' : ℕ)
      → g + left ≡ count
      → g' < g
      → r' < rows
      → c' < size
      → at_node (put_all groups left g m) ((groups g').group_nodes r' c')
        ≡ at_node m ((groups g').group_nodes r' c')
  unfolding put_all
  set_servers_other zero g m g' r' c' e l hr hc = refl
  set_servers_other (suc left) g m g' r' c' e l hr hc =
      set_servers_other left (g + 1) _ g' r' c' (omega arith) (omega arith) hr hc
      ∙ put_group_other (groups g) g (groups g).row_size 0 m ((groups g').group_nodes r' c')
          (λ r c _ h hc' same.
            let (rows_are, cols_are) = v.sized g (omega arith) (omega arith) in
            let (same_group, _, _) =
              v.disjoint g' r' c' g r c (omega arith) (omega arith) hr hc (omega arith)
                (omega arith) (omega arith) (omega arith) same.0 same.1 in
            omega arith)

  servers_at :
      (left g : ℕ) (m : ServerMap) (g' r' c' : ℕ)
      → g + left ≡ count
      → g ≤ g'
      → g' < count
      → r' < rows
      → c' < size
      → at_node (put_all groups left g m) ((groups g').group_nodes r' c')
        ≡ record { group_id = g'; group_row_id = r'; group_col_id = c' }
  unfolding put_all
  servers_at zero g m g' r' c' e l h hr hc = absurd (omega arith)
  servers_at (suc left) g m g' r' c' e l h hr hc = elim (first_or_later g g' l) [
    | inr later ↦
        servers_at left (g + 1) (put_group (groups g) g (groups g).row_size 0 m) g' r' c'
          (omega arith) later h hr hc
    | inl here ↦
        let (rows_are, cols_are) = v.sized g (omega arith) (omega arith) in
        rw here (
          set_servers_other left (g + 1) (put_group (groups g) g (groups g).row_size 0 m) g r' c'
            (omega arith) (omega arith) hr hc
          ∙ put_group_at (groups g) g
              (λ r c r'' c'' a b a' b' same.
                let (_, rows_same, cols_same) =
                  v.disjoint g r c g r'' c'' (omega arith) (omega arith) (omega arith) (omega arith)
                    (omega arith) (omega arith) (omega arith) (omega arith) same.0 same.1 in
                (rows_same, cols_same))
              (groups g).row_size 0 m r' c' (omega arith) (omega arith) (omega arith) (omega arith))
  ]

  -- After the writes each server that the groups hold has its own group, row and
  -- column in its record, whatever the records said before.
  pub put_all-at :
      (m : ServerMap) (g r c : ℕ)
      → g < count
      → r < rows
      → c < size
      → put_all groups count 0 m
          ((groups g).group_nodes r c).rack_id
          ((groups g).group_nodes r c).server_id_in_rack
        ≡ record { group_id = g; group_row_id = r; group_col_id = c }
  put_all-at m g r c h hr hc = servers_at count 0 m g r c (omega arith) (omega arith) h hr hc

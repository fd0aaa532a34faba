-- ===== src/Placement/Groups.antt =====
-- The loop of createPlacementGroups (Placement/Group.antt) and the servers of all groups.
use eset_store.Base.{
  ℕ, zero, suc, ◌+◌, ◌≤◌, ◌<◌, ◌≡◌, refl, sym, subst, ◌∙◌, ◌⊎◌, inl, inr, some, arith, false, ◌==◌,
  if◌then◌else◌, eq→==, ne→not_eq,
}
use eset_store.Placement.ESet.{GroupNode, PlacementGroup}
use eset_store.Placement.Group.{Fill, max_rack, check_rack_in_group, create_placement_groups}
use eset_store.Placement.Distinct.{
  IsGroup, create_placement_group-IsGroup, max_rack-lt, max_rack-most,
}

-- The groups from `from` up to `to`: their servers are of the racks, and different, also across groups.
pub record AreGroups (groups : ℕ → PlacementGroup) (racks rows size from to : ℕ) (start : ℕ → ℕ)
    : Type 0 where
  pub sized :
      (g : ℕ) → from ≤ g → g < to → ((groups g).row_size ≡ rows) × ((groups g).col_size ≡ size)
  pub free_before :
      (g r c : ℕ)
      → from ≤ g
      → g < to
      → r < rows
      → c < size
      → start ((groups g).group_nodes r c).rack_id ≤ ((groups g).group_nodes r c).server_id_in_rack
  pub disjoint :
      (g r c g' r' c' : ℕ)
      → from ≤ g
      → g < to
      → r < rows
      → c < size
      → from ≤ g'
      → g' < to
      → r' < rows
      → c' < size
      → ((groups g).group_nodes r c).rack_id ≡ ((groups g').group_nodes r' c').rack_id
      → ((groups g).group_nodes r c).server_id_in_rack
        ≡ ((groups g').group_nodes r' c').server_id_in_rack
      → (g ≡ g') × (r ≡ r') × (c ≡ c')
  pub racks_exist :
      (g r c : ℕ)
      → from ≤ g
      → g < to
      → r < rows
      → c < size
      → ((groups g).group_nodes r c).rack_id < racks

module _ {groups : ℕ → PlacementGroup} {racks rows size from to : ℕ} {start taken : ℕ → ℕ}
    (first : IsGroup (groups from) racks start taken)
    (sizes : ((groups from).row_size ≡ rows) × ((groups from).col_size ≡ size))
    (rest : AreGroups groups racks rows size (from + 1) to taken) where
  first_or_later : (g : ℕ) → from ≤ g → (g ≡ from) ⊎ (from + 1 ≤ g)
  first_or_later g h = ground arith

  cons_sized :
      (g : ℕ) → from ≤ g → g < to → ((groups g).row_size ≡ rows) × ((groups g).col_size ≡ size)
  cons_sized g h l = elim (first_or_later g h) [
    | inl e ↦ rw e sizes
    | inr later ↦ rest.sized g later l
  ]

  cons_free :
      (g r c : ℕ)
      → from ≤ g
      → g < to
      → r < rows
      → c < size
      → start ((groups g).group_nodes r c).rack_id ≤ ((groups g).group_nodes r c).server_id_in_rack
  cons_free g r c h l hr hc = elim (first_or_later g h) [
    | inl e ↦ rw e (first.fresh r c (omega arith) (omega arith))
    | inr later ↦ omega (
      arith,
      rest.free_before g r c later l hr hc,
      first.kept ((groups g).group_nodes r c).rack_id,
    )
  ]

  cons_racks :
      (g r c : ℕ)
      → from ≤ g
      → g < to
      → r < rows
      → c < size
      → ((groups g).group_nodes r c).rack_id < racks
  cons_racks g r c h l hr hc = elim (first_or_later g h) [
    | inl e ↦ rw e (first.racks_exist r c (omega arith) (omega arith))
    | inr later ↦ rest.racks_exist g r c later l hr hc
  ]

  -- A server of the first group is taken before the later groups are filled.
  cons_apart :
      (r c g r' c' : ℕ)
      → r < rows
      → c < size
      → from + 1 ≤ g
      → g < to
      → r' < rows
      → c' < size
      → ((groups from).group_nodes r c).rack_id ≡ ((groups g).group_nodes r' c').rack_id
      → ((groups from).group_nodes r c).server_id_in_rack
        ≡ ((groups g).group_nodes r' c').server_id_in_rack
      → ⊥
  cons_apart r c g r' c' hr hc h l hr' hc' e e' = omega (
    arith,
    rest.free_before g r' c' h l hr' hc',
    subst (λ k. ((groups from).group_nodes r c).server_id_in_rack < taken k) e
        (first.used r c (omega arith) (omega arith)),
  )

  cons_disjoint :
      (g r c g' r' c' : ℕ)
      → from ≤ g
      → g < to
      → r < rows
      → c < size
      → from ≤ g'
      → g' < to
      → r' < rows
      → c' < size
      → ((groups g).group_nodes r c).rack_id ≡ ((groups g').group_nodes r' c').rack_id
      → ((groups g).group_nodes r c).server_id_in_rack
        ≡ ((groups g').group_nodes r' c').server_id_in_rack
      → (g ≡ g') × (r ≡ r') × (c ≡ c')
  cons_disjoint g r c g' r' c' h l hr hc h' l' hr' hc' e e' =
      both (first_or_later g h) (first_or_later g' h')
    where
      both :
          (g ≡ from) ⊎ (from + 1 ≤ g)
          → (g' ≡ from) ⊎ (from + 1 ≤ g')
          → (g ≡ g') × (r ≡ r') × (c ≡ c')
      both (inl q) (inl q') =
          let (rows_same, cols_same) =
            first.distinct r c r' c' (omega arith) (omega arith) (omega arith) (omega arith)
              (rw (q, q') at e) (rw (q, q') at e') in
          (q ∙ sym q', rows_same, cols_same)
      both (inl q) (inr b') =
          absurd (cons_apart r c g' r' c' hr hc b' l' hr' hc' (rw q at e) (rw q at e'))
      both (inr b) (inl q') =
          absurd (cons_apart r' c' g r c hr' hc' b l hr hc (sym (rw q' at e)) (sym (rw q' at e')))
      both (inr b) (inr b') = rest.disjoint g r c g' r' c' b l hr hc b' l' hr' hc' e e'

  AreGroups-cons : AreGroups groups racks rows size from to start
  AreGroups-cons = record {
    sized = cons_sized;
    free_before = cons_free;
    disjoint = cons_disjoint;
    racks_exist = cons_racks;
  }

groups_at :
    (rows size each racks : ℕ) (fresh : ℕ → ℕ → ℕ → GroupNode) (left idx : ℕ)
    (groups : ℕ → PlacementGroup) (start : ℕ → ℕ)
    → 0 < racks
    → (groups' : ℕ → PlacementGroup) × (taken : ℕ → ℕ) × (create_placement_groups rows size each
          racks fresh left idx groups start
        ≡ some (groups', taken))
      × AreGroups groups' racks rows size idx (idx + left) start
      × ((g : ℕ) → g < idx → groups' g ≡ groups g)
unfolding create_placement_groups
groups_at rows size each racks fresh zero idx groups start pos = (
  groups,
  start,
  refl,
  record {
    sized = λ g h l. absurd (omega arith);
    free_before = λ g r c h l. absurd (omega arith);
    disjoint = λ g r c g' r' c' h l. absurd (omega arith);
    racks_exist = λ g r c h l. absurd (omega arith);
  },
  λ g l. refl,
)
groups_at rows size each racks fresh (suc left) idx groups start pos =
    let (group, taken, e, rows_are, cols_are, first) =
      create_placement_group-IsGroup rows size each racks (fresh idx) start pos in
    let (groups', taken', e', rest, before) =
      groups_at rows size each racks fresh left (idx + 1)
        (λ i. if i == idx then group else groups i) taken pos in
    let here : groups' idx ≡ group = before idx (omega arith) ∙ rw (eq→== idx idx refl) in
    (
      groups',
      taken',
      rw (e, create_placement_groups) e',
      subst (λ to. AreGroups groups' racks rows size idx to start) (omega arith)
          (AreGroups-cons {taken = taken} (rw here first) (rw here (rows_are, cols_are)) rest),
      λ g l. before g (omega arith) ∙ rw (ne→not_eq g idx (omega arith)),
    )

-- On one rack or more and any contents of fresh memory the loops of `createPlacementGroups` end
-- without a fault; the groups have the sizes asked for, each node of a group has one of the racks, and
-- no two nodes, within a group and across groups, have the same rack and the same number in the rack.
-- The rack that is chosen for the next nodes of a row is one of the racks, and of the racks that the
-- memory of the row does not hold none has fewer servers taken; whether the rack has a server of the
-- number, is not said.
pub create_placement_groups-AreGroups :
    (rows size each racks count : ℕ) (fresh : ℕ → ℕ → ℕ → GroupNode) (memory : ℕ → PlacementGroup)
    → 0 < racks
    → (groups : ℕ → PlacementGroup) × (taken : ℕ → ℕ) × (create_placement_groups rows size each
          racks fresh count 0 memory
          (λ k. 0)
        ≡ some (groups, taken))
      × AreGroups groups racks rows size 0 count (λ k. 0)
      × ((f : Fill) (row : ℕ)
          → (max_rack f size row racks 0 0 < racks)
            × ((k : ℕ)
                → k < racks
                → check_rack_in_group f.nodes size row k ≡ false
                → f.taken (max_rack f size row racks 0 0) ≤ f.taken k))
create_placement_groups-AreGroups rows size each racks count fresh memory pos =
    let (groups, taken, e, all, before) =
      groups_at rows size each racks fresh count 0 memory (λ k. 0) pos in
    (
      groups,
      taken,
      e,
      subst (λ to. AreGroups groups racks rows size 0 to (λ k. 0)) (omega arith) all,
      λ f row. (
        max_rack-lt f size row racks 0 0 racks pos (omega arith),
        λ k h free. max_rack-most f size row racks 0 0 k (omega arith) (omega arith) free,
      ),
    )

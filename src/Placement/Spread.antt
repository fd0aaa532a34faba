-- ===== src/Placement/Spread.antt =====
-- Where assignESetsToGroup of Placement/Manager.antt puts the blocks of a group.
use eset_store.Base.{
  ℕ, zero, suc, ◌+◌, ◌*◌, ◌≤◌, ◌<◌, ◌≡◌, refl, ap, sym, ◌∙◌, some, List, [], ◌∷◌, arith, length,
  get_elem?, get_elem?-tabulate, length-tabulate, get_elem?-some,
}
use eset_store.Placement.ESet.{PlacementGroup, ESetNode, node_col, eset_node, create_eset}
use eset_store.Placement.Overlap.{node_col-lt}
use eset_store.Placement.Manager.{
  EcBlock, EcBlockGroup, place_block, assign_blocks, assign_esets_to_group,
}

-- The blocks with each one on the node of its index.
abbrev OnNodes : List EcBlock → List ESetNode → List EcBlock → Type 0
OnNodes blocks nodes blocks' =
    (i : ℕ) (old : EcBlock) (node : ESetNode)
    → get_elem? blocks i ≡ some old
    → get_elem? nodes i ≡ some node
    → get_elem? blocks' i ≡ some (place_block old node)

OnNodes-cons :
    (b : EcBlock) (node : ESetNode) (bs : List EcBlock) (nodes : List ESetNode) (bs' : List EcBlock)
    → OnNodes bs nodes bs'
    → OnNodes (b ∷ bs) (node ∷ nodes) (place_block b node ∷ bs')
OnNodes-cons b node bs nodes bs' h zero old n e q = cc
OnNodes-cons b node bs nodes bs' h (suc i) old n e q = h i old n e q

assign_blocks-OnNodes :
    (blocks : List EcBlock) (nodes : List ESetNode)
    → length blocks ≤ length nodes
    → (blocks' : List EcBlock) × (assign_blocks blocks nodes ≡ some blocks')
      × (length blocks' ≡ length blocks)
      × OnNodes blocks nodes blocks'
unfolding assign_blocks
assign_blocks-OnNodes [] nodes h = ([], refl, refl, λ i old node e q. absurd (cc))
assign_blocks-OnNodes (b ∷ bs) [] h = absurd (omega arith)
assign_blocks-OnNodes (b ∷ bs) (node ∷ nodes) h =
    let (bs', e, l, at) = assign_blocks-OnNodes bs nodes (omega arith) in
    (place_block b node ∷ bs', rw (e, assign_blocks), ap suc l, OnNodes-cons b node bs nodes bs' at)

-- No server is in two places of the group.
abbrev pub HasDistinctServers : PlacementGroup → Type 0
HasDistinctServers group =
    (r c r' c' : ℕ)
    → r < group.row_size
    → c < group.col_size
    → r' < group.row_size
    → c' < group.col_size
    → (group.group_nodes r c).rack_id ≡ (group.group_nodes r' c').rack_id
    → (group.group_nodes r c).server_id_in_rack ≡ (group.group_nodes r' c').server_id_in_rack
    → (r ≡ r') × (c ≡ c')

module _ (group : PlacementGroup) (start set : ℕ) (blocks blocks' : List EcBlock)
    (l : length blocks ≡ group.row_size)
    (at : OnNodes blocks (create_eset group start set).set_nodes blocks') where
  -- Block `i` is on the server in row `i` of the set.
  on_row :
      (i : ℕ) (b : EcBlock)
      → i < group.row_size
      → get_elem? blocks' i ≡ some b
      → (b.rack_id ≡ (group.group_nodes i (node_col group.col_size set i)).rack_id)
        × (b.server_id ≡ (group.group_nodes i (node_col group.col_size set i)).server_id_in_rack)
  unfolding create_eset place_block
  on_row i b hi q =
      let (old, e) = get_elem?-some blocks i (omega arith) in
      let here : get_elem? blocks' i ≡ some (place_block old (eset_node group set (0 + i))) =
        at i old _ e (get_elem?-tabulate group.row_size 0 i (eset_node group set) hi) in
      let zero_add : 0 + i ≡ i = omega arith in ground arith

  same_row :
      set < group.col_size * group.col_size
      → HasDistinctServers group
      → (i j : ℕ) → i < group.row_size
      → j < group.row_size
      → (b b' : EcBlock) → get_elem? blocks' i ≡ some b
      → get_elem? blocks' j ≡ some b'
      → b.rack_id ≡ b'.rack_id
      → b.server_id ≡ b'.server_id
      → i ≡ j
  same_row h distinct i j hi hj b b' q q' er es =
      let (rack, server) = on_row i b hi q in
      let (rack', server') = on_row j b' hj q' in
      (distinct i (node_col group.col_size set i) j (node_col group.col_size set j) hi
        (node_col-lt group.col_size set i h) hj (node_col-lt group.col_size set j h)
        (sym rack ∙ er ∙ rack') (sym server ∙ es ∙ server')).0

-- A block group with as many blocks as a set of its placement group has rows is spread over the
-- set's servers: the block group gets the number of the set and keeps its number of blocks, block `i`
-- is on the server in row `i` of the set, and no two of its blocks come to one server, where the
-- group's servers are all different.
pub assign_esets_to_group_spreads :
    (group : PlacementGroup) (start set : ℕ) (block_group : EcBlockGroup)
    → set < group.col_size * group.col_size
    → length block_group.blocks ≡ group.row_size
    → HasDistinctServers group
    → (after : EcBlockGroup) × (assign_esets_to_group block_group (create_eset group start set)
        ≡ some after)
      × (after.set_idx ≡ start + set)
      × (length after.blocks ≡ group.row_size)
      × ((i : ℕ)
          → i < group.row_size
          → (b : EcBlock) × (get_elem? after.blocks i ≡ some b)
            × (b.rack_id ≡ (group.group_nodes i (node_col group.col_size set i)).rack_id)
            × (b.server_id
                ≡ (group.group_nodes i (node_col group.col_size set i)).server_id_in_rack))
      × ((i j : ℕ)
          → i < group.row_size
          → j < group.row_size
          → (b b' : EcBlock) → get_elem? after.blocks i ≡ some b
          → get_elem? after.blocks j ≡ some b'
          → b.rack_id ≡ b'.rack_id
          → b.server_id ≡ b'.server_id
          → i ≡ j)
unfolding assign_esets_to_group create_eset eset_node
assign_esets_to_group_spreads group start set block_group h l distinct =
    let (blocks', e, l', at) =
      assign_blocks-OnNodes block_group.blocks (create_eset group start set).set_nodes
        (omega (arith, length-tabulate group.row_size 0 (eset_node group set))) in
    (
      record block_group { set_idx = start + set; blocks = blocks' },
      rw e,
      refl,
      l' ∙ l,
      λ i hi.
          let (b, found) = get_elem?-some blocks' i (omega (arith, l')) in
          let (rack, server) =
            on_row group start set block_group.blocks blocks' l at i b hi found in
          (b, found, rack, server),
      same_row group start set block_group.blocks blocks' l at h distinct,
    )

-- ===== src/Recovery/Nodes.antt =====
-- The nodes that take part in the recovery of a set: checkIOCollision, sortSelectedNodes and
-- selectRecoveryNodes of ECMeta/ECRecoveryManagement.c, up to the command for the head node. The
-- array of the nodes of a set has as many cells as its `size` says.
use eset_store.Base.{
  ℕ, zero, suc, ◌+◌, ◌-◌, ◌%◌, Bool, false, not, ◌&&◌, ◌||◌, Option, none, some, List, [], ◌∷◌,
  ◌++◌, ltb, ◌==◌, if◌then◌else◌, ◌>>=◌, length, get_or, set, take,
}
use eset_store.Placement.ESet.{ESetNode, ESets}
use eset_store.Recovery.Failed.{check_in_sets}

-- The loop of checkIOCollision over the nodes from `i` on.
unfoldable pub collides : ℕ → ESetNode → ℕ → List ESetNode → Bool
collides size node i [] = false
collides size node i (cur ∷ rest) =
    let minus = if ltb node.row cur.row then cur.row - node.row else node.row - cur.row in
    (not (i == node.row)
      && (((cur.failed_flag == 1) && (cur.recovered_flag == 0)) && (minus % size == 0)))
    || collides size node (i + 1) rest

unfoldable pub check_io_collision : ESets → ESetNode → Bool
unfolding collides
check_io_collision esets node =
    if node.row == 0 then false else collides esets.size node 0 (take esets.size esets.set_nodes)

-- The inner loop of sortSelectedNodes: `selected` is the index of `node`, `iter` that of the first
-- of the nodes that are left.
unfoldable pub select_min : ℕ → ESetNode → ℕ → List ESetNode → ℕ
select_min selected node iter [] = selected
select_min selected node iter (cur ∷ rest) =
    let smaller = ltb cur.row node.row in
    select_min (if smaller then iter else selected) (if smaller then cur else node) (iter + 1) rest

-- The first of these nodes changes places with the one of this index.
unfoldable pub swap_selected : ESetNode → List ESetNode → ℕ → ESetNode × List ESetNode
swap_selected x xs zero = (x, xs)
swap_selected x xs (suc k) = (get_or xs k x, set xs k x)

-- The outer loop, over the nodes that are left.
unfoldable pub sort_from : ℕ → List ESetNode → List ESetNode
unfolding select_min swap_selected
sort_from zero nodes = nodes
sort_from (suc left) [] = []
sort_from (suc left) (x ∷ xs) =
    let (first, rest) = swap_selected x xs (select_min 0 x 1 xs) in first ∷ sort_from left rest

unfoldable pub sort_selected_nodes : List ESetNode → List ESetNode
unfolding sort_from
sort_selected_nodes nodes = sort_from (length nodes) nodes

-- Is the node out of use?
unfoldable pub out_of_use : ESetNode → Bool
out_of_use node = (node.failed_flag == 1) && not (node.recovered_flag == 1)

-- One round of the first loop of selectRecoveryNodes; `none`: a write behind the `num` cells of
-- `eSetNodes`.
unfoldable pub pick_one : ESets → ℕ → ESetNode → List ESetNode → Option (List ESetNode)
unfolding check_io_collision out_of_use
pick_one esets num node selected =
    if out_of_use node || check_io_collision esets node
    then some selected
    else (if ltb (length selected) num then some (selected ++ (node ∷ [])) else none)

unfoldable pub pick_nodes : ESets → ℕ → List ESetNode → List ESetNode → Option (List ESetNode)
unfolding pick_one
pick_nodes esets num [] selected = some selected
pick_nodes esets num (node ∷ nodes) selected =
    pick_one esets num node selected >>= λ selected'. pick_nodes esets num nodes selected'

-- The second loop, which ends when there are `num` nodes.
unfoldable pub fill_up : ℕ → List ESetNode → List ESetNode → Option (List ESetNode)
unfolding out_of_use
fill_up num [] selected = some selected
fill_up num (node ∷ nodes) selected =
    let skip = out_of_use node || check_in_sets selected node (length selected) in
    let selected' = if skip then selected else selected ++ (node ∷ []) in
    let rest = fill_up num nodes selected' in
    if skip || (ltb (length selected) num && not (length selected' == num))
    then rest
    else (if ltb (length selected) num then some selected' else none)

-- `num` is stripeK. The inner `none`: there are not that many nodes, and no command is written.
unfoldable pub select_recovery_nodes : ESets → ℕ → Option (Option (List ESetNode))
unfolding pick_nodes fill_up sort_selected_nodes
select_recovery_nodes esets num =
    let nodes = take esets.size esets.set_nodes in
    pick_nodes esets num nodes [] >>= λ selected.
    (if length selected == num then some selected else fill_up num nodes selected) >>= λ selected'.
    some (if length selected' == num then some (sort_selected_nodes selected') else none)

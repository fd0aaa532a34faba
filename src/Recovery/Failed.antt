-- ===== src/Recovery/Failed.antt =====
-- addFailedESets with createFailedESetsList and markFailedBlocks, and checkInSets, of
-- ECMeta/ECRecoveryManagement.c. Times and locks are left out.
use eset_store.Base.{
  ℕ, zero, suc, ◌+◌, ◌-◌, ◌*◌, ◌/◌, ◌%◌, Option, none, some, ◌>>=◌, Bool, false, ◌&&◌, ◌||◌, List,
  [], ◌∷◌, ◌==◌, if◌then◌else◌,
}
use eset_store.Placement.ESet.{ESetNode, ESets}
use eset_store.Placement.Manager.{
  BlockGroupMapping, PlacementManager, ServerPlace, EcBlock, EcBlockGroup,
}

-- A `FailedESetsList_t` by the index of its set in `eSets`; `failed_idx` is the array's first cell.
pub record FailedESets : Type 0 where
  pub eset_idx : ℕ
  pub failed_idx : ℕ
  pub failed_nodes_num : ℕ

unfoldable pub create_failed_esets_list : ServerPlace → ℕ → FailedESets
create_failed_esets_list server idx = record {
  eset_idx = idx;
  failed_idx = server.group_row_id;
  failed_nodes_num = 1;
}

unfoldable pub set_failed_flag : List ESetNode → ℕ → List ESetNode
set_failed_flag [] row = []
set_failed_flag (node ∷ nodes) zero = record node { failed_flag = 1 } ∷ nodes
set_failed_flag (node ∷ nodes) (suc row) = node ∷ set_failed_flag nodes row

-- What both loops do with a set that they choose: flags in the set, an entry at the list's front.
unfoldable pub add_eset :
    ServerPlace → ℕ → (ℕ → ESets) × List FailedESets → (ℕ → ESets) × List FailedESets
unfolding create_failed_esets_list set_failed_flag
add_eset server idx (esets, pending) = (
  (λ i.
      if i == idx
      then record (esets idx) {
        recovering_flag = 1;
        set_nodes = set_failed_flag (esets idx).set_nodes server.group_row_id;
      }
      else esets i),
  create_failed_esets_list server idx ∷ pending,
)

-- Row 0: as many sets as the factor says, one after the other.
unfoldable pub add_row_zero :
    ServerPlace → ℕ → ℕ → (ℕ → ESets) × List FailedESets → (ℕ → ESets) × List FailedESets
unfolding add_eset
add_row_zero server zero idx state = state
add_row_zero server (suc left) idx state =
    add_row_zero server left (idx + 1) (add_eset server idx state)

-- Any other row: the sets of the group for which the column comes out.
unfoldable pub add_row_other :
    ServerPlace → ℕ → ℕ → ℕ → ℕ → (ℕ → ESets) × List FailedESets → (ℕ → ESets) × List FailedESets
unfolding add_eset
add_row_other server factor start zero idx state = state
add_row_other server factor start (suc left) idx state =
    add_row_other server factor start left (idx + 1) (
      if server.group_col_id == (idx / factor * (server.group_row_id - 1) + idx) % factor
      then add_eset server (idx + start) state
      else state)

-- The choice of `addFailedESets`, before it calls `markFailedBlocks`.
unfoldable pub choose_failed_esets : ServerPlace → ℕ → (ℕ → ESets) → (ℕ → ESets) × List FailedESets
unfolding add_row_zero add_row_other
choose_failed_esets server factor esets =
    let start = server.group_id * (factor * factor) in
    if server.group_row_id == 0
    then add_row_zero server factor (start + server.group_col_id * factor) (esets, [])
    else add_row_other server factor start (factor * factor) 0 (esets, [])

-- `none`: the group has no block of the row.
unfoldable pub mark_missing : List EcBlock → ℕ → Option (List EcBlock)
mark_missing [] row = none
mark_missing (b ∷ bs) zero = some (record b { missing_flag = 1; recovered_flag = 0 } ∷ bs)
mark_missing (b ∷ bs) (suc row) = mark_missing bs row >>= λ rest. some (b ∷ rest)

-- The block groups of one chain; `store` holds the block groups by their addresses.
unfoldable pub mark_chain :
    ℕ → List BlockGroupMapping → (ℕ → EcBlockGroup) → Option (ℕ → EcBlockGroup)
unfolding mark_missing
mark_chain row [] store = some store
mark_chain row (m ∷ ms) store = mark_missing (store m.block_group).blocks row >>= λ marked.
    mark_chain row ms
      (λ p. if p == m.block_group then record (store p) { blocks = marked } else store p)

unfoldable pub mark_failed_blocks :
    ServerPlace
    → (ℕ → List BlockGroupMapping)
    → List FailedESets
    → (ℕ → ESets)
    → (ℕ → EcBlockGroup)
    → Option ((ℕ → ESets) × (ℕ → EcBlockGroup))
unfolding mark_chain
mark_failed_blocks server chains [] esets store = some (esets, store)
mark_failed_blocks server chains (f ∷ fs) esets store =
    mark_chain server.group_row_id (chains (esets f.eset_idx).eset_id) store >>= λ store'.
    mark_failed_blocks server chains fs
      (λ i.
        if i == f.eset_idx
        then record (esets i) { failed_server_num = (esets i).failed_server_num + 1 }
        else esets i)
      store'

-- `addFailedESets`: the list of the sets to recover, and the sets and block groups after it.
unfoldable pub add_failed_esets :
    ServerPlace
    → ℕ
    → PlacementManager
    → (ℕ → EcBlockGroup)
    → Option (List FailedESets × PlacementManager × (ℕ → EcBlockGroup))
unfolding choose_failed_esets mark_failed_blocks
add_failed_esets server factor mgr store =
    let (esets, pending) = choose_failed_esets server factor mgr.esets in
    mark_failed_blocks server mgr.block_group_map pending esets store >>= λ (esets', store').
    some (pending, record mgr { esets = esets' }, store')

unfoldable pub check_in_sets : List ESetNode → ESetNode → ℕ → Bool
check_in_sets [] node size = false
check_in_sets (cur ∷ nodes) node zero = false
check_in_sets (cur ∷ nodes) node (suc size) =
    (node.col == cur.col && node.row == cur.row) || check_in_sets nodes node size

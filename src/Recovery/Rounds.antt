-- ===== src/Recovery/Rounds.antt =====
-- recoverESet with recoveryingABlock and recoveredBlock of ECMeta/ECRecoveryManagement.c: what the
-- metadata server does when the head node of a recovery reports. Locks, times and output are left
-- out; the list of the sets in recovery is held by its values, the block groups by their addresses.
use eset_store.Base.{
  ℕ, zero, suc, ◌+◌, ◌&&◌, Option, none, some, List, [], ◌∷◌, ◌==◌, if◌then◌else◌, ◌>>=◌, get_elem?,
  set,
}
use eset_store.Placement.ESet.{ESetNode, ESets}
use eset_store.Placement.Manager.{BlockGroupMapping, PlacementManager, EcBlock, EcBlockGroup}
use eset_store.Recovery.Failed.{FailedESets}

-- The fields of a `FailedESetsList_t` that its recovery writes, with the others.
pub record RecoveringESets : Type 0 where
  pub failed : FailedESets
  pub block_gp_mapping : Option BlockGroupMapping
  pub eset_nodes : List ESetNode

-- What recovery reads and writes: its manager, the placement manager and the block groups.
pub record RecoveryState : Type 0 where
  pub recovering_esets_lists : List RecoveringESets
  pub total_recovered_size : ℕ
  pub placement_mgr : PlacementManager
  pub block_groups : ℕ → EcBlockGroup

-- The command that is written to the head node: the recovery is over, or this block group is next.
pub data RecoveryCmd : Type 0 where
  recovery_over : RecoveryCmd
  recover_block_group : BlockGroupMapping → RecoveryCmd

unfoldable pub set_id : (ℕ → ESets) → RecoveringESets → ℕ
set_id esets entry = (esets entry.failed.eset_idx).eset_id

-- The loop of recoveryingABlock: the first block group that is not recovered.
unfoldable pub first_unrecovered : List BlockGroupMapping → Option BlockGroupMapping
first_unrecovered [] = none
first_unrecovered (m ∷ ms) = if m.recovered_flag == 1 then first_unrecovered ms else some m

-- The entry keeps a copy of it; where there is none, the entry stays and the recovery is over.
unfoldable pub take_mapping :
    RecoveringESets → Option BlockGroupMapping → RecoveringESets × RecoveryCmd
take_mapping entry none = (entry, recovery_over)
take_mapping entry (some m) = (record entry { block_gp_mapping = some m }, recover_block_group m)

unfoldable pub recoverying_a_block : RecoveryState → RecoveringESets → RecoveringESets × RecoveryCmd
unfolding set_id first_unrecovered take_mapping
recoverying_a_block st entry =
    take_mapping entry
      (first_unrecovered (st.placement_mgr.block_group_map (set_id st.placement_mgr.esets entry)))

-- The chain with the first block group of this id marked, and that block group.
unfoldable pub mark_mapping : ℕ → List BlockGroupMapping → List BlockGroupMapping × Option ℕ
mark_mapping id [] = ([], none)
mark_mapping id (m ∷ ms) =
    let (rest, found) = mark_mapping id ms in
    if m.block_id == id
    then (record m { recovered_flag = 1 } ∷ ms, some m.block_group)
    else (m ∷ rest, found)

-- A missing block is on the head node from now on; any other block stays.
unfoldable pub recover_block : ESetNode → EcBlock → EcBlock
recover_block head b =
    if b.missing_flag == 1 && b.recovered_flag == 0
    then record b { recovered_flag = 1; server_id = head.server_id_in_rack; rack_id = head.rack_id }
    else b

unfoldable pub recovered_size : EcBlock → ℕ
recovered_size b = if b.missing_flag == 1 && b.recovered_flag == 0 then b.block_size else 0

-- The cells of `failedIdx`: createFailedESetsList sets the first one and clears the others.
unfoldable pub failed_idx_at : FailedESets → ℕ → ℕ
failed_idx_at failed i = if i == 0 then failed.failed_idx else 0

-- The loop over the failed nodes that are left; `none`: there is no block of that index.
unfoldable pub recover_rows :
    FailedESets → ESetNode → ℕ → ℕ → List EcBlock → ℕ → Option (List EcBlock × ℕ)
unfolding recover_block recovered_size failed_idx_at
recover_rows failed head zero i blocks total = some (blocks, total)
recover_rows failed head (suc left) i blocks total =
    get_elem? blocks (failed_idx_at failed i) >>= λ b.
    recover_rows failed head left (i + 1)
      (set blocks (failed_idx_at failed i) (recover_block head b)) (total + recovered_size b)

unfoldable pub set_group_map : PlacementManager → ℕ → List BlockGroupMapping → PlacementManager
set_group_map mgr idx chain = record mgr {
  block_group_map = λ i. if i == idx then chain else mgr.block_group_map i;
}

unfoldable pub set_blocks : (ℕ → EcBlockGroup) → ℕ → List EcBlock → ℕ → EcBlockGroup
set_blocks groups g blocks = λ p. if p == g then record (groups g) { blocks = blocks } else groups p

-- With the marked chain of set `idx`, and the block group of the mark; `none` is also a missing
-- head node.
unfoldable pub recover_found :
    RecoveryState → RecoveringESets → ℕ → List BlockGroupMapping → Option ℕ → Option RecoveryState
unfolding recover_rows set_group_map set_blocks
recover_found st entry idx chain none =
    some (record st { placement_mgr = set_group_map st.placement_mgr idx chain })
recover_found st entry idx chain (some g) = get_elem? entry.eset_nodes 0 >>= λ head.
    recover_rows entry.failed head entry.failed.failed_nodes_num 0 (st.block_groups g).blocks
      st.total_recovered_size
    >>= λ (blocks, total). some (record st {
      total_recovered_size = total;
      placement_mgr = set_group_map st.placement_mgr idx chain;
      block_groups = set_blocks st.block_groups g blocks;
    })

-- The part of recoveredBlock under the lock.
unfoldable pub mark_recovered : RecoveryState → RecoveringESets → ℕ → Option RecoveryState
unfolding set_id mark_mapping recover_found
mark_recovered st entry block_id =
    let idx = set_id st.placement_mgr.esets entry in
    let (chain, found) = mark_mapping block_id (st.placement_mgr.block_group_map idx) in
    recover_found st entry idx chain found

-- A report of another block group than the one in recovery changes nothing.
unfoldable pub recovered_mapping :
    RecoveryState → RecoveringESets → ℕ → Option BlockGroupMapping → Option RecoveryState
unfolding mark_recovered
recovered_mapping st entry block_id none = some st
recovered_mapping st entry block_id (some m) =
    if m.block_id == block_id then mark_recovered st entry block_id else some st

unfoldable pub recovered_block : RecoveryState → RecoveringESets → ℕ → Option RecoveryState
unfolding recovered_mapping
recovered_block st entry block_id = recovered_mapping st entry block_id entry.block_gp_mapping

unfoldable pub find_recovering : (ℕ → ESets) → ℕ → List RecoveringESets → Option RecoveringESets
unfolding set_id
find_recovering esets eset [] = none
find_recovering esets eset (e ∷ es) =
    if set_id esets e == eset then some e else find_recovering esets eset es

unfoldable pub replace_recovering :
    (ℕ → ESets) → ℕ → RecoveringESets → List RecoveringESets → List RecoveringESets
unfolding set_id
replace_recovering esets eset entry [] = []
replace_recovering esets eset entry (e ∷ es) =
    if set_id esets e == eset then entry ∷ es else e ∷ replace_recovering esets eset entry es

-- `recoverESet` after the loop that looks for the set. `block_id` 0 is a head node that is ready for
-- its first block group. The inner `none`: the set is not in recovery, and nothing is written.
unfoldable pub recover_entry :
    RecoveryState → ℕ → ℕ → Option RecoveringESets → Option (Option RecoveryCmd × RecoveryState)
unfolding recoverying_a_block recovered_block replace_recovering
recover_entry st eset block_id none = some (none, st)
recover_entry st eset block_id (some entry) =
    (if block_id == 0 then some st else recovered_block st entry block_id) >>= λ st'.
    let (entry', cmd) = recoverying_a_block st' entry in
    some (
      some cmd,
      record st' {
        recovering_esets_lists =
            replace_recovering st'.placement_mgr.esets eset entry' st'.recovering_esets_lists;
      },
    )

unfoldable pub recover_eset : RecoveryState → ℕ → ℕ → Option (Option RecoveryCmd × RecoveryState)
unfolding recover_entry find_recovering
recover_eset st eset block_id =
    recover_entry st eset block_id
      (find_recovering st.placement_mgr.esets eset st.recovering_esets_lists)

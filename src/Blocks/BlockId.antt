-- ===== src/Blocks/BlockId.antt =====
-- From the id of a block to the id of its group: getBlockGroupId of ECMeta/BlockManagement.c.
use eset_store.Base.{
  ℕ, ◌+◌, ◌*◌, ◌≤◌, ◌<◌, ◌≡◌, ap, ◌∙◌, some, get_elem?, get_elem?-tabulate, arith,
}
use eset_store.Text.Number.{u64_mod}
use eset_store.Placement.Manager.{EcBlock}
use eset_store.Blocks.Groups.{
  BlockGroupManagement, id_step, new_block, new_block_group, get_block_group_id,
}

-- Where a group has at most 256 blocks and the thread's next id is a multiple of 256
-- that does not wrap round, getBlockGroupId gives for each block of a new group the id of the group.
pub get_block_group_id-new :
    (memory : ℕ → EcBlock) (set_idx : ℕ) (mgr : BlockGroupManagement) (th i k : ℕ)
    → mgr.block_idx_for_th th ≡ id_step * k
    → mgr.block_idx_for_th th + id_step < u64_mod
    → mgr.k_size + mgr.m_size ≤ id_step
    → i < mgr.k_size + mgr.m_size
    → (b : EcBlock) × (get_elem? (new_block_group memory set_idx mgr th).blocks i ≡ some b)
      × (get_block_group_id b.block_id ≡ (new_block_group memory set_idx mgr th).block_group_id)
unfolding new_block_group new_block get_block_group_id
get_block_group_id-new memory set_idx mgr th i k e room small l = (
  new_block memory (mgr.block_idx_for_th th) i,
  get_elem?-tabulate (mgr.k_size + mgr.m_size) 0 i (new_block memory (mgr.block_idx_for_th th)) l
      ∙ ap (λ n. some (new_block memory (mgr.block_idx_for_th th) n)) from_zero,
  omega (arith, l, small, e, room),
)
  where
    from_zero : 0 + i ≡ i
    from_zero = omega arith

-- ===== src/Blocks/Groups.antt =====
-- The functions of ECMeta/BlockManagement.c. The block groups that were given back are held in a
-- list for each thread; a block group stands for its contents.
use eset_store.Base.{ℕ, ◌+◌, ◌*◌, ◌/◌, ◌%◌, ◌^◌, List, [], ◌∷◌, ◌==◌, if◌then◌else◌, tabulate}
use eset_store.Text.Number.{u64_mod}
use eset_store.Placement.Manager.{EcBlock, EcBlockGroup}
use eset_store.Blocks.Slab.{BlockSlab, req_a_block_group_mem}

pub record BlockGroupManagement : Type 0 where
  pub k_size : ℕ
  pub m_size : ℕ
  pub worker_th_num : ℕ
  pub block_idx_for_th : ℕ → ℕ
  pub block_groups : ℕ → List EcBlockGroup
  pub block_slab : BlockSlab

-- `1 << EC_BLOCKGROUP_START_OFFSET`
abbrev pub id_step : ℕ
id_step = 2 ^ 8

unfoldable pub create_block_group_manager : BlockSlab → ℕ → ℕ → ℕ → BlockGroupManagement
create_block_group_manager slab k_size m_size workers = record {
  k_size = k_size;
  m_size = m_size;
  worker_th_num = workers;
  block_idx_for_th = λ idx. (id_step + idx * id_step) % u64_mod;
  block_groups = λ idx. [];
  block_slab = slab;
}

-- A new block. Its server and rack are what the memory held.
unfoldable pub new_block : (ℕ → EcBlock) → ℕ → ℕ → EcBlock
new_block memory id idx = record (memory idx) {
  block_id = (id + idx) % u64_mod;
  recovered_flag = 0;
  missing_flag = 0;
  block_size = 0;
}

-- `memory` and `set_idx` are what the new memory holds.
unfoldable pub new_block_group : (ℕ → EcBlock) → ℕ → BlockGroupManagement → ℕ → EcBlockGroup
unfolding new_block
new_block_group memory set_idx mgr th = record {
  block_group_id = mgr.block_idx_for_th th;
  block_group_size = 0;
  blocks = tabulate (mgr.k_size + mgr.m_size) 0 (new_block memory (mgr.block_idx_for_th th));
  set_idx = set_idx;
}

-- The manager after the call that makes a new group.
unfoldable pub after_new : (ℕ → ℕ → ℕ) → BlockGroupManagement → ℕ → BlockGroupManagement
unfolding req_a_block_group_mem
after_new realloc mgr th = record mgr {
  block_slab = (req_a_block_group_mem realloc mgr.block_slab th).1;
  block_idx_for_th = λ t.
      if t == th
      then (mgr.block_idx_for_th th + mgr.worker_th_num * id_step) % u64_mod
      else mgr.block_idx_for_th t;
}

unfoldable pub take_group :
    (ℕ → ℕ → ℕ)
    → (ℕ → EcBlock)
    → ℕ
    → BlockGroupManagement
    → ℕ
    → List EcBlockGroup
    → EcBlockGroup × BlockGroupManagement
unfolding new_block_group after_new
take_group realloc memory set_idx mgr th [] =
    (new_block_group memory set_idx mgr th, after_new realloc mgr th)
take_group realloc memory set_idx mgr th (g ∷ gs) =
    (g, record mgr { block_groups = λ t. if t == th then gs else mgr.block_groups t })

unfoldable pub request_block_group :
    (ℕ → ℕ → ℕ) → (ℕ → EcBlock) → ℕ → BlockGroupManagement → ℕ → EcBlockGroup × BlockGroupManagement
unfolding take_group
request_block_group realloc memory set_idx mgr th =
    take_group realloc memory set_idx mgr th (mgr.block_groups th)

unfoldable pub revoke_block_group : BlockGroupManagement → EcBlockGroup → ℕ → BlockGroupManagement
revoke_block_group mgr group th = record mgr {
  block_groups = λ t. if t == th then group ∷ mgr.block_groups th else mgr.block_groups t;
}

-- The two shifts.
unfoldable pub get_block_group_id : ℕ → ℕ
get_block_group_id block_id = block_id / id_step * id_step % u64_mod

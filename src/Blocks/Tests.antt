-- ===== src/Blocks/Tests.antt =====
-- Two threads that request and give back block groups of three blocks.
use native.Mathlib.Omega.{arith}
use eset_store.Base.{ℕ, ◌+◌, ◌*◌, ◌%◌, ◌^◌, ◌≤◌, ◌≡◌, refl, some, [], ◌∷◌, get_elem?}
use eset_store.Placement.Manager.{EcBlock}
use eset_store.Blocks.Slab.{ThreadBlockSlab, BlockSlab, create_block_slab, req_a_block_group_mem}
use eset_store.Blocks.Groups.{
  BlockGroupManagement, create_block_group_manager, request_block_group, new_block_group,
  get_block_group_id,
}
use eset_store.Blocks.Ids.{count_all}
use eset_store.Blocks.Unique.{Step, Reach, block_group_ids_unique}
use eset_store.Blocks.Regions.{IsTiled, req_a_block_group_mem-inside}
use eset_store.Blocks.BlockId.{get_block_group_id-new}

abbrev same_place : ℕ → ℕ → ℕ
same_place base size = base

abbrev no_thread : ℕ → ThreadBlockSlab
no_thread t = record {
  mem_base = 0;
  mem_cur = 0;
  total_mem_size = 0;
  remain_mem_size = 0;
  block_size = 0;
  each_group_mem_size = 0;
}

abbrev empty_slab : BlockSlab
empty_slab = record {
  mem_base = 0;
  mem_cur = 0;
  total_mem_size = 0;
  remain_mem_size = 0;
  block_size = 3;
  thread_num = 2;
  thread_block_slab = no_thread;
}

abbrev no_block : ℕ → EcBlock
no_block i = record {
  block_id = 0;
  server_id = 0;
  rack_id = 0;
  missing_flag = 0;
  recovered_flag = 0;
  block_size = 0;
}

abbrev manager : BlockGroupManagement
manager = record {
  k_size = 2;
  m_size = 1;
  worker_th_num = 2;
  block_idx_for_th = λ t. (256 + t * 256) % 2 ^ 64;
  block_groups = λ t. [];
  block_slab = empty_slab;
}

-- A slab with groups of 40 + 3 * 40 bytes: thread 1 gets the memory after that of thread 0.
req_a_block_group_mem_run :
    (req_a_block_group_mem same_place (create_block_slab same_place 1000 no_thread 40 40 2 3) 1).0
    ≡ 1000 + 160 * 1024
unfolding req_a_block_group_mem create_block_slab
req_a_block_group_mem_run = refl

request_block_group_run :
    (request_block_group same_place no_block 0 manager 1).0.block_group_id ≡ 512
unfolding request_block_group
request_block_group_run = refl

first_request : Reach same_place empty_slab 2 1 2 (record {
  manager =
      (request_block_group same_place no_block 0 (create_block_group_manager empty_slab 2 1 2) 1).1;
  held =
      (request_block_group same_place no_block 0 (create_block_group_manager empty_slab 2 1 2) 1).0
      ∷ [];
})
unfolding create_block_group_manager
first_request = Reach.later Reach.start (Step.requested 1 no_block 0 (omega arith) (omega arith))

block_group_ids_unique_example :
    count_all
      (request_block_group same_place no_block 0 (create_block_group_manager empty_slab 2 1 2) 1).1
      ((request_block_group same_place no_block 0 (create_block_group_manager empty_slab 2 1 2) 1).0
        ∷ [])
      512
    ≤ 1
block_group_ids_unique_example = block_group_ids_unique 512 (omega arith) first_request

get_block_group_id-new_example :
    (b : EcBlock) × (get_elem? (new_block_group no_block 0 manager 1).blocks 2 ≡ some b)
    × (get_block_group_id b.block_id ≡ (new_block_group no_block 0 manager 1).block_group_id)
get_block_group_id-new_example =
    get_block_group_id-new no_block 0 manager 1 2 2 (omega arith) (omega arith) (omega arith)
      (omega arith)

-- Thread 0 has no memory left.
abbrev used_up : BlockSlab
used_up = record empty_slab {
  remain_mem_size = 200000;
  mem_cur = 5000;
  thread_block_slab = λ t. record (no_thread t) { each_group_mem_size = 160 };
}

req_a_block_group_mem-inside_example :
    let (ptr, slab') = req_a_block_group_mem same_place used_up 0 in
    let th' = slab'.thread_block_slab 0 in
    (th'.mem_base ≤ ptr)
    × (ptr + 160 ≡ th'.mem_cur)
    × (ptr + 160 ≤ th'.mem_base + th'.total_mem_size)
    × (th'.each_group_mem_size ≡ 160)
    × IsTiled th'
req_a_block_group_mem-inside_example =
    req_a_block_group_mem-inside same_place used_up 0 refl (omega arith)

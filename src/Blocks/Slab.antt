-- ===== src/Blocks/Slab.antt =====
-- The functions of ECMeta/BlockSlab.c. An address is a number; `realloc` returns the new address of
-- a memory, and the sizes of the two structs are parameters.
use eset_store.Base.{ℕ, zero, suc, ◌+◌, ◌-◌, ◌*◌, ltb, ◌==◌, if◌then◌else◌}

pub record ThreadBlockSlab : Type 0 where
  pub mem_base : ℕ
  pub mem_cur : ℕ
  pub total_mem_size : ℕ
  pub remain_mem_size : ℕ
  pub block_size : ℕ
  pub each_group_mem_size : ℕ

pub record BlockSlab : Type 0 where
  pub mem_base : ℕ
  pub mem_cur : ℕ
  pub total_mem_size : ℕ
  pub remain_mem_size : ℕ
  pub block_size : ℕ
  pub thread_num : ℕ
  pub thread_block_slab : ℕ → ThreadBlockSlab

abbrev pub blockslab_incre_size : ℕ
blockslab_incre_size = 1024 * 1024

abbrev pub threadblockslab_alloc_size : ℕ
threadblockslab_alloc_size = 1024

-- The first `if`: the memory grows, and `memCur` and `totalMemSize` stay.
unfoldable pub grow : (ℕ → ℕ → ℕ) → BlockSlab → ThreadBlockSlab → BlockSlab
grow realloc slab th =
    let more = th.each_group_mem_size * blockslab_incre_size in
    if ltb slab.remain_mem_size (th.each_group_mem_size * threadblockslab_alloc_size)
    then record slab {
      mem_base = realloc slab.mem_base (slab.total_mem_size + more);
      remain_mem_size = slab.remain_mem_size + more;
    }
    else slab

unfoldable pub allock_thread_block_slab_mem :
    (ℕ → ℕ → ℕ) → BlockSlab → ThreadBlockSlab → BlockSlab × ThreadBlockSlab
unfolding grow
allock_thread_block_slab_mem realloc slab th =
    let req = th.each_group_mem_size * threadblockslab_alloc_size in
    let grown = grow realloc slab th in
    (
      record grown { mem_cur = grown.mem_cur + req; remain_mem_size = grown.remain_mem_size - req },
      record th {
        mem_base = grown.mem_cur;
        mem_cur = grown.mem_cur;
        total_mem_size = req;
        remain_mem_size = req;
      },
    )

unfoldable pub set_thread : BlockSlab → ℕ → ThreadBlockSlab → BlockSlab
set_thread slab idx th = record slab {
  thread_block_slab = λ i. if i == idx then th else slab.thread_block_slab i;
}

unfoldable pub alloc_for_thread : (ℕ → ℕ → ℕ) → BlockSlab → ℕ → ThreadBlockSlab → BlockSlab
unfolding allock_thread_block_slab_mem set_thread
alloc_for_thread realloc slab idx th =
    let (slab', th') = allock_thread_block_slab_mem realloc slab th in set_thread slab' idx th'

-- The loop over the threads that are left.
unfoldable pub init_threads : (ℕ → ℕ → ℕ) → ℕ → ℕ → BlockSlab → ℕ → BlockSlab
unfolding alloc_for_thread
init_threads realloc zero idx slab each = slab
init_threads realloc (suc left) idx slab each =
    init_threads realloc left (idx + 1)
      (alloc_for_thread realloc slab idx (record (slab.thread_block_slab idx) {
        block_size = slab.block_size;
        each_group_mem_size = each;
      }))
      each

-- `memory` is the address of the new memory, `fresh` what its thread slabs hold.
unfoldable pub create_block_slab :
    (ℕ → ℕ → ℕ) → ℕ → (ℕ → ThreadBlockSlab) → ℕ → ℕ → ℕ → ℕ → BlockSlab
unfolding init_threads
create_block_slab realloc memory fresh group_header block_header threads blocks =
    let each = group_header + blocks * block_header in
    init_threads realloc threads 0
      (record {
        mem_base = memory;
        mem_cur = memory;
        total_mem_size = each * blockslab_incre_size;
        remain_mem_size = each * blockslab_incre_size;
        block_size = blocks;
        thread_num = threads;
        thread_block_slab = fresh;
      })
      each

-- The address of the memory for a block group, and the slab after it.
unfoldable pub req_a_block_group_mem : (ℕ → ℕ → ℕ) → BlockSlab → ℕ → ℕ × BlockSlab
unfolding alloc_for_thread set_thread
req_a_block_group_mem realloc slab idx =
    let th = slab.thread_block_slab idx in
    let slab' =
      if ltb th.remain_mem_size th.each_group_mem_size
      then alloc_for_thread realloc slab idx th
      else slab in
    let th' = slab'.thread_block_slab idx in
    (
      th'.mem_cur,
      set_thread slab' idx (record th' {
        mem_cur = th'.mem_cur + th'.each_group_mem_size;
        remain_mem_size = th'.remain_mem_size - th'.each_group_mem_size;
      }),
    )

-- ===== src/Blocks/Regions.antt =====
-- Where the memory of the block groups lies: reqABlockGroupMem of ECMeta/BlockSlab.c.
use eset_store.Base.{ℕ, ◌+◌, ◌≤◌, ◌≡◌, refl, arith, ltb, eq→==, Bool-cases, inl, inr}
use eset_store.Blocks.Slab.{
  ThreadBlockSlab, BlockSlab, set_thread, alloc_for_thread, allock_thread_block_slab_mem,
  req_a_block_group_mem,
}

-- What is left of a thread's memory reaches to its end.
abbrev pub IsTiled : ThreadBlockSlab → Type 0
IsTiled th = th.mem_cur + th.remain_mem_size ≡ th.mem_base + th.total_mem_size

-- Where what is left of the thread's memory reaches to its end, and whether it is enough for a group
-- or not, `reqABlockGroupMem` returns memory for a group that lies within the thread's region as it
-- is then; the next memory of the thread starts behind it, and what is left reaches to the end again.
pub req_a_block_group_mem-inside :
    (realloc : ℕ → ℕ → ℕ) (slab : BlockSlab) (idx : ℕ)
    → IsTiled (slab.thread_block_slab idx)
    → (slab.thread_block_slab idx).mem_base ≤ (slab.thread_block_slab idx).mem_cur
    → let (ptr, slab') = req_a_block_group_mem realloc slab idx in
      let each = (slab.thread_block_slab idx).each_group_mem_size in
      let th' = slab'.thread_block_slab idx in
      (th'.mem_base ≤ ptr)
      × (ptr + each ≡ th'.mem_cur)
      × (ptr + each ≤ th'.mem_base + th'.total_mem_size)
      × (th'.each_group_mem_size ≡ each)
      × IsTiled th'
unfolding req_a_block_group_mem alloc_for_thread set_thread allock_thread_block_slab_mem
req_a_block_group_mem-inside realloc slab idx tiled le =
    rw (eq→== idx idx refl) (elim (Bool-cases (ltb th.remain_mem_size th.each_group_mem_size)) [
      | inl short ↦ rw short (rw (eq→== idx idx refl) (ground arith))
      | inr room ↦ rw room (ground arith)
    ])
  where
    th : ThreadBlockSlab
    th = slab.thread_block_slab idx

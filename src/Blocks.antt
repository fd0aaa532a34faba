-- ===== src/Blocks.antt =====
-- The block groups of the metadata server: ECMeta/BlockManagement.c and ECMeta/BlockSlab.c.
pub mod Slab
pub mod Groups
pub mod Ids
pub mod Unique
pub mod BlockId
pub mod Regions
mod Tests

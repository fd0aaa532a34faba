-- ===== src/Racks.antt =====
-- The servers and racks that the metadata server knows: ECMeta/rackMap.c.
pub mod RackMap
pub mod Line
pub mod Locate
mod Tests

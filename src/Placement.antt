-- ===== src/Placement.antt =====
-- How servers are grouped into ESets and block groups are placed: ECMeta/ESetPlacement.c.
pub mod ESet
pub mod Overlap
pub mod Group
pub mod Distinct
pub mod Groups
pub mod Manager
pub mod Request
pub mod Spread
pub mod Places
pub mod Located
pub mod Created
mod Tests

-- ===== src/Text.antt =====
-- Decimal numbers and markers in command texts: ECMeta/ecUtils.c and ECServer/ecUtils.c.
pub mod Number
pub mod Decimal
pub mod Search
pub mod Markers
pub mod Lines
mod Tests

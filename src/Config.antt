-- ===== src/Config.antt =====
-- The configuration files of the servers: ECMeta/cfgParser.c and ECMeta/configProperties.c.
pub mod Properties
pub mod Load
mod Tests

-- ===== src/Config.antt =====
-- config/dcp.go: the configuration, its defaults, and the views of its maps.
pub mod Types
pub mod Defaults
pub mod Complete
pub mod Filled
pub mod Stages
pub mod Applied
pub mod Views
pub mod Expiry

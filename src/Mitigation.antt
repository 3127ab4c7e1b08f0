-- ===== src/Mitigation.antt =====
-- couchbase/rollback_mitigation.go: which sequence number of a vBucket is persisted on all of its
-- replicas. Mitigation/Defs.antt has the state and what a new configuration does to it,
-- Mitigation/Rounds.antt the rounds that watch and observe; the children Least, Dispatched and
-- Revisions prove what the observers are told, and the order of configurations.
mod Defs
mod Rounds
pub mod Least
pub mod Dispatched
pub mod Revisions
unfoldable pub use Defs.*
unfoldable pub use Rounds.*

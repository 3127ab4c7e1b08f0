-- ===== src/Checkpoint.antt =====
-- stream/checkpoint.go: saving, loading and clearing checkpoints. Checkpoint/Defs.antt has the
-- methods; the children Dumps, Acknowledged, Walks and Resuming prove what a save and a load do.
mod Defs
pub mod Dumps
pub mod Acknowledged
pub mod Walks
pub mod Resuming
unfoldable pub use Defs.*

-- ===== src/Rollback.antt =====
-- couchbase/client.go: OpenStream and openStreamWithRollback, and the merge of GetVBucketSeqNos.
-- Rollback/Defs.antt has the methods, Rollback/Resumed.antt what an observer gets after a rollback,
-- Rollback/Numbers.antt what the merge keeps.
mod Defs
pub mod Resumed
pub mod Numbers
unfoldable pub use Defs.*

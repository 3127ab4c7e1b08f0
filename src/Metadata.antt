-- ===== src/Metadata.antt =====
-- metadata/metadata.go: where checkpoints are kept, as an interface, and metadata/read_metadata.go.
-- couchbase/metadata.go is in Metadata/Couchbase.antt, over couchbase/doc_op.go in
-- Metadata/Documents.antt; Metadata/Saving.antt and Metadata/Loading.antt have the proof
-- that it meets the contract of Metadata/Contract.antt. Metadata/File.antt has
-- metadata/file_metadata.go.
mod Defs
pub mod Contract
pub mod Ids
pub mod Documents
pub mod Couchbase
pub mod Saving
pub mod Returns
pub mod Loading
pub mod File
unfoldable pub use Defs.*

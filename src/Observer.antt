-- ===== src/Observer.antt =====
-- couchbase/observer.go: the observer of one vBucket, which gocbcore calls with the events of its
-- stream. The listener that it calls is the stream's (Stream.antt), so a handler returns the
-- events that it hands on. Tracing and logging are left out.
pub mod Outcomes
mod Defs
mod Handlers
pub mod Waiting
pub mod Answers
pub mod Forwarding
pub mod Catchup
pub use Outcomes.{Outcome, done, waiting, not_in_snapshot, ◌>>=◌, ◌>>◌}
unfoldable pub use Defs.*
unfoldable pub use Handlers.*

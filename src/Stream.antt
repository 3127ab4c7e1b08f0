-- ===== src/Stream.antt =====
-- stream/stream.go: the stream of a member, from the events of its observers to the offsets that
-- its checkpoint saves. Stream/State.antt has the state, and the methods that events and
-- acknowledgements run.
mod State
pub mod Offsets
pub mod Runs
pub mod Progress
unfoldable pub use State.*

-- ===== src/Lifecycle.antt =====
-- stream/stream.go: opening, ending, reopening, rebalancing and closing a stream.
-- Lifecycle/Defs.antt has the methods that open and end a stream, Lifecycle/Closing.antt those that
-- close and rebalance it; the children Attempts, Opening, Ending and Rebalancing prove what opening leaves, when
-- a stream has ended, and what calls of Rebalance come to.
mod Defs
mod Closing
pub mod Attempts
pub mod Opening
pub mod Ending
pub mod Rebalancing
unfoldable pub use Defs.*
unfoldable pub use Closing.*

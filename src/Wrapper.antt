-- ===== src/Wrapper.antt =====
-- wrapper/concurrent_swiss_map.go: the map that the components share.
-- The table underneath is a third-party package (mhmtszr/concurrent-swiss-map), so it enters as an
-- interface, `CsMap`: its operations, and what its documentation says of them. The methods of the
-- wrapper are defined over any such table; Wrapper/Laws.antt has their laws, and
-- Wrapper/Assoc.antt a table that meets the interface, for tests, and Wrapper/Json.antt the two
-- methods for JSON.
mod Defs
pub mod Laws
pub mod Assoc
pub mod Json
pub use Defs.{CsMap, ConcurrentSwissMap}
unfoldable pub use Defs.{visit, create, delete, load, range, store, store_if, count, to_map}

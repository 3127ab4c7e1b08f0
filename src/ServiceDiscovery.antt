-- ===== src/ServiceDiscovery.antt =====
-- servicediscovery/: the members that a leader knows, and their numbers; stream/leader_election.go
-- and kubernetes/leader_elector.go, which change who leads.
-- ServiceDiscovery/Rpc.antt has the clients of the members, ServiceDiscovery/Defs.antt the service
-- discovery, ServiceDiscovery/Rounds.antt its rounds and the calls from other members, and
-- ServiceDiscovery/Election.antt the callbacks of an election.
mod Rpc
mod Defs
mod Rounds
mod Election
pub mod Removal
pub mod Roles
pub mod Steps
pub mod Runs
pub mod Labels
pub mod Order
pub mod Owners
pub mod Numbers
unfoldable pub use Rpc.*
unfoldable pub use Defs.*
unfoldable pub use Rounds.*
unfoldable pub use Election.*

-- ===== src/Metrics.antt =====
-- metric/collector.go and metric/registerer.go: what is measured, and which collectors are
-- registered. Metrics/Descs.antt has the descriptions, Metrics/Defs.antt Collect over the library of
-- Prometheus as a parameter, Metrics/Registerer.antt the registerer; Metrics/Labels.antt and
-- Metrics/Lag.antt are about what Collect sends.
mod Descs
mod Defs
pub mod Labels
pub mod Lag
pub mod Registerer
pub mod Registered
pub mod Stale
pub use Descs.*
unfoldable pub use Defs.*

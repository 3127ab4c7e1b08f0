-- ===== src/Examples.antt =====
-- Runs of the definitions at concrete inputs.
mod Fixtures
mod Cluster
mod Streams
mod Observers
mod Members
mod Checkpoints
mod Mitigations
mod Lifecycles
mod Groups
mod Versions
mod Configs
mod Programs
mod Maps
mod Measures
mod Agents
mod Registrations
mod Rollbacks
mod Elections

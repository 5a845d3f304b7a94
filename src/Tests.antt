-- ===== src/Tests.antt =====
-- Concrete inputs: stand-ins for the code outside of the repository, and runs of the theorems.
pub mod Params
pub mod Flags
mod Requests
mod Reports
mod Segments
mod Updates
mod Counters
mod Pipelines
mod Producers
mod Caches
mod Staging
mod Telemetries
mod Snapshotting

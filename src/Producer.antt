-- ===== src/Producer.antt =====
-- splitio/producer: the synchronizer that moves what SDKs leave in Redis to the backend.
pub mod Metadata
pub mod Impressions
pub mod Events
pub mod EvictionMonitor
pub mod Pipeline
pub mod TelemetryConsumer
pub mod TelemetryWorker
pub mod TelemetryConfigs

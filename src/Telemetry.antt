-- ===== src/Telemetry.antt =====
-- splitio/proxy/storage/telemetry.go and telemetryts.go: what the proxy counts of its endpoints.
pub mod Endpoints
pub mod StatusCodes
pub mod Latencies
pub mod Laws
pub mod TimeSlices
pub mod Rollover
pub mod Bounded

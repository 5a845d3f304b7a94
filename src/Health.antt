-- ===== src/Health.antt =====
-- splitio/provisional/healthcheck: the health of the application and of the services that it uses.
pub mod Application
pub mod ByPercentage
pub mod Periodic
pub mod Services

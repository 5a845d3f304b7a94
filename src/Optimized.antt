-- ===== src/Optimized.antt =====
-- splitio/proxy/storage/optimized: the in-memory structures that the proxy serves requests from.
pub mod MySegments
pub mod Historic
pub mod RbHistoric

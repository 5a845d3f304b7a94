-- ===== src/Storage.antt =====
-- splitio/proxy/storage: the storages of the proxy.
pub mod Segments
pub mod RuleBased
pub mod Splits

-- ===== src/Persistent.antt =====
-- splitio/proxy/storage/persistent: the snapshot of the proxy on disk.
pub mod Bolt
pub mod RuleBased
pub mod Segments
pub mod Splits

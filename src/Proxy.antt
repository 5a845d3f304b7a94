-- ===== src/Proxy.antt =====
-- splitio/proxy: what stands around the proxy's storage.
pub mod Caching
pub mod Deferred

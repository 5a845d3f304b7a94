-- ===== src/Observability.antt =====
-- splitio/provisional/observability: which segments and which feature flags are in use.
pub mod SegmentTracker
pub mod SplitTracker

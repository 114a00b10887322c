-- ===== src/Metrics.antt =====
-- backend/src/metrics/registry.ts: the registry of counters and histograms. A text is the list of its
-- UTF-16 code units.
pub mod Table
pub mod Labels
pub mod Registry
pub mod Catalogue
pub mod Render
mod Tests

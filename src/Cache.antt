-- ===== src/Cache.antt =====
-- internal/cache/range.go: the sharded range cache.
pub mod Types
pub mod Ops
pub mod Evict
pub mod Invariant
pub mod Cover
pub mod Scan
pub mod Eviction
pub mod Insertion
pub mod Touch
pub mod Reads
pub mod Stale
pub mod Measures
pub mod Gauges
pub mod History
pub mod Blocks
pub mod Keys
pub mod Kept
pub mod Divergence
mod Tests

-- ===== src/Dagster.antt =====
-- The batch layer (dagster/bsky_dagster).
pub mod Config
pub mod Resources
pub mod Decode
pub mod Batch
pub mod Bronze
pub mod Assets
pub mod Materialize
pub mod Landing
pub mod Schema
pub mod Checks
pub mod Dlq
pub mod Iceberg
pub mod Definitions

-- ===== src/Ingest.antt =====
-- The ingest service (ingest/*.py).
pub mod Config
pub mod CursorStore
pub mod Checkpointer
pub mod Parse
pub mod Metrics
pub mod Kafka
pub mod Producer
pub mod Consume
pub mod Jetstream
pub mod Inject

-- ===== src/Tests.antt =====
-- The theorems applied to concrete inputs.
mod Checkpointer
mod Parse
mod Ingest
mod Reconnects
mod Restarts
mod Materialize
mod Inject
mod Bronze
mod Quarantine
mod Dagster
mod Iceberg

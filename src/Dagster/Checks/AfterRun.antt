-- ===== src/Dagster/Checks/AfterRun.antt =====
-- The freshness check of dagster/bsky_dagster/checks.py after a run of a bronze asset.
use bluesky_trends.Prelude.StrDict

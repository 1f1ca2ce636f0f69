-- ===== src/Dagster/Assets/NoLoss.antt =====
-- The state at the start of a run of a bronze asset of dagster/bsky_dagster/assets.
use bluesky_trends.Prelude.{ℕ, List, arith}
use bluesky_trends.Prelude.Dict.{Dict}
use bluesky_trends.Dagster.Decode.{Place}
use bluesky_trends.Dagster.Batch.Offsets.{new_batch-HasOffsets}
use bluesky_trends.Dagster.Bronze.{new_archive}
use bluesky_trends.Dagster.Bronze.Committed.{next, stands, Safe}

pub new_archive-Safe :
    {Row : Type 0} (place : Row → Place) (max_rows max_seconds now : ℕ) (table : List Row)
    (committed : Dict ℕ)
    → Safe place (λ q. next q committed) (new_archive max_rows max_seconds now table committed)
unfolding stands
new_archive-Safe place max_rows max_seconds now table committed = record {
  distinct = tt;
  offsets = new_batch-HasOffsets place max_rows max_seconds;
  read = λ p. omega arith;
  waiting = λ p o e. absurd (cc);
  behind = λ p o e. absurd (cc);
}

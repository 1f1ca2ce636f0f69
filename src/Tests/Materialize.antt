-- ===== src/Tests/Materialize.antt =====
-- A posts asset and its landing asset over an empty catalog.
use bluesky_trends.Prelude.{true, ◌≡◌, refl, some, List, [], ◌∷◌, ◌++◌, arith}
use bluesky_trends.Prelude.StrDict
use bluesky_trends.Json.{find}
use bluesky_trends.Schemas.{validate_post, only, one_of}
use bluesky_trends.Dagster.Config.{default_settings}
use bluesky_trends.Dagster.Decode.{BronzeRow, decode_post}
use bluesky_trends.Dagster.Decode.Laws.{decode_post-place}
use bluesky_trends.Dagster.Batch.{add, should_flush, clear}
use bluesky_trends.Dagster.Iceberg.{Table, ensure_table}
use bluesky_trends.Samples.Catalog.{in_memory, with_namespace, with_table}
use bluesky_trends.Dagster.Bronze.{
  kafka_error, message, Poll, accept, quarantine, handle, turn, archive_loop, archive, flush,
  flush_if_due, drained, covers, member, discard,
}
use bluesky_trends.Dagster.Landing.{newest}
use bluesky_trends.Dagster.Materialize.{
  Asset, BronzeResult, materialized, Platform, posts_asset, materialize_bronze, materialize_landing,
}
use bluesky_trends.Dagster.Materialize.Result.{
  rows_before, Leaves, Truthful, materialize_bronze-Truthful,
}
use bluesky_trends.Dagster.Materialize.Pipeline.{Stamps, ReadAfter, pipeline_lands}
use bluesky_trends.Samples.{pydantic, texts}
use bluesky_trends.Samples.Archiver.{deserialize, two_records, poll_of, last}

abbrev asset : Asset BronzeRow
asset = posts_asset pydantic texts deserialize default_settings

abbrev empty_platform : Platform BronzeRow
empty_platform = record { catalog = record { namespaces = []; tables = [] }; groups = [] }

-- Two posts and a record that does not decode, and the end of the partition.
abbrev polls : List Poll
polls =
    two_records 1
    ++ poll_of (message (some 0) (some 6) (9 ∷ []))
      ∷ poll_of (kafka_error true (some 0))
      ∷ record last { now = 30000 }
      ∷ []

abbrev reported : BronzeResult
reported = record { archived_this_run = 2; dlq_this_run = 1; bronze_total_rows = 2 }

ends :
    (materialize_bronze in_memory default_settings asset 8000 polls last empty_platform).0
    ≡ materialized reported
unfolding materialize_bronze archive ensure_table with_namespace with_table one_of StrDict.insert
    StrDict.lookup archive_loop turn handle accept decode_post validate_post only find flush_if_due
    should_flush add flush clear quarantine drained covers member discard
ends = refl

materialize_bronze-Truthful_example :
    Truthful asset polls empty_platform reported
      (materialize_bronze in_memory default_settings asset 8000 polls last empty_platform).1
materialize_bronze-Truthful_example =
    materialize_bronze-Truthful in_memory default_settings asset 8000 polls last empty_platform
      reported refl ends

stamps : Stamps asset
stamps d p r e = rw (decode_post-place pydantic texts d p r e) refl

read_after :
    ReadAfter
      (newest asset.ingest_ts
        (rows_before (StrDict.lookup asset.table_name empty_platform.catalog.tables)))
      polls
unfolding StrDict.lookup newest
read_after = (omega arith, (omega arith, (omega arith, (omega arith, (omega arith, tt)))))

pipeline_lands_example :
    let after =
      (materialize_bronze in_memory default_settings asset 8000 polls last empty_platform).1 in
    (t : Table BronzeRow) × Leaves asset t empty_platform after
    × (materialize_landing default_settings asset 9 after.catalog [] ≡ (some (2, 2), t.rows))
unfolding StrDict.lookup
pipeline_lands_example =
    pipeline_lands in_memory default_settings asset 8000 polls last empty_platform reported 9 refl
      stamps read_after (omega arith) (omega arith) ends

-- ===== src/Dagster/Materialize.antt =====
-- The assets of dagster/bsky_dagster/assets as a whole: a bronze asset from the Iceberg catalog and
-- the consumer groups that it finds to its `MaterializeResult`, and a landing asset from the catalog
-- to its own. The three event types differ in what they fill in.
pub mod Rule
pub mod Counts
pub mod Result
pub mod Pipeline
use bluesky_trends.Prelude.{ℕ, String, Option, none, some, List, [], length}
use bluesky_trends.Prelude.Dict.{Dict}
use bluesky_trends.Prelude.StrDict
use bluesky_trends.Prelude.StrDict.{StrDict}
use bluesky_trends.Schemas.{Pydantic}
use bluesky_trends.Dagster.Config.{Settings}
use bluesky_trends.Dagster.Resources.{Consumer, build_consumer}
use bluesky_trends.Dagster.Decode.{BronzeRow, LikeRow, FollowRow, Texts}
use bluesky_trends.Dagster.Schema.{
  NestedField, PartitionField, partition_spec, posts_iceberg_schema, likes_iceberg_schema,
  follows_iceberg_schema,
}
use bluesky_trends.Dagster.Iceberg.{Table, Catalog, Pyiceberg, ensure_table}
use bluesky_trends.Dagster.Bronze.{
  Poll, Vertical, Archive, Failure, Status, going, stopped, failed, archive, new_archive,
}
use bluesky_trends.Dagster.Landing.{land}
use bluesky_trends.Dagster.Assets.{Deserializer, posts_vertical, likes_vertical, follows_vertical}

-- What an event type fills into its bronze asset and its landing asset.
pub record Asset (Row : Type 0) : Type 0 where
  pub vertical : Vertical Row
  pub table_name : String
  pub schema : List NestedField
  pub spec : PartitionField
  -- the consumer, whose group keeps the committed offsets
  pub consumer : Consumer
  pub ingest_ts : Row → ℕ

-- The metadata of the `MaterializeResult` of a bronze asset.
pub record BronzeResult : Type 0 where
  pub archived_this_run : ℕ
  pub dlq_this_run : ℕ
  pub bronze_total_rows : ℕ

-- How the asset ends; `unfinished` is that the polls given do not end its loop.
pub data Outcome : Type 0 where
  materialized : BronzeResult → Outcome
  raised : Failure → Outcome
  no_table unfinished : Outcome

-- The Iceberg catalog, and the committed offsets of each consumer group in the topic that it reads.
pub record Platform (Row : Type 0) : Type 0 where
  pub catalog : Catalog Row
  pub groups : StrDict (Dict ℕ)

abbrev pub offsets_of : Option (Dict ℕ) → Dict ℕ
offsets_of none = []
offsets_of (some committed) = committed

module _ {Row : Type 0} where
  -- The tail of the asset: the rows of the table are counted only if the loop ended without an
  -- error.
  abbrev pub result_of : Status → Archive Row → Outcome
  result_of going s = unfinished
  result_of stopped s = materialized (record {
    archived_this_run = s.archived;
    dlq_this_run = s.dlq_count;
    bronze_total_rows = length s.table;
  })
  result_of (failed f) s = raised f

  -- The platform with what the run has appended and committed.
  abbrev pub after_run :
      Asset Row → Table Row → Catalog Row → Archive Row → Platform Row → Platform Row
  after_run asset table cat s platform = record {
    catalog = record cat {
      tables = StrDict.insert asset.table_name (record table { rows = s.table }) cat.tables;
    };
    groups = StrDict.insert asset.consumer.group_id s.committed platform.groups;
  }

  module _ (iceberg : Pyiceberg Row) (settings : Settings) (asset : Asset Row) where
    -- The loop of the asset, over the rows of the table and the offsets of the group.
    abbrev pub bronze_run : ℕ → List Poll → Poll → List Row → Platform Row → Status × Archive Row
    bronze_run now polls last rows platform =
        archive asset.vertical settings.bronze_max_rows_per_run polls last (
          new_archive settings.bronze_batch_max_rows settings.bronze_batch_max_seconds now rows
            (offsets_of (StrDict.lookup asset.consumer.group_id platform.groups)))

    abbrev pub run_on :
        ℕ
        → List Poll
        → Poll
        → Platform Row
        → Option (Table Row × Catalog Row)
        → Outcome × Platform Row
    run_on now polls last platform none = (
      no_table,
      record platform {
        catalog =
            iceberg.create_namespace_if_not_exists settings.iceberg_namespace platform.catalog;
      },
    )
    run_on now polls last platform (some (table, cat)) =
        let (st, s) = bronze_run now polls last table.rows platform in
        (result_of st s, after_run asset table cat s platform)

    -- A bronze asset.
    unfoldable pub materialize_bronze : ℕ → List Poll → Poll → Platform Row → Outcome × Platform Row
    materialize_bronze now polls last platform =
        run_on now polls last platform
          (ensure_table iceberg settings asset.table_name asset.schema asset.spec platform.catalog)

  -- The metadata of a landing asset, `loaded_this_run` and `landing_total_rows`; `none` is that it
  -- raised, since the catalog has no such table or an insert failed.
  abbrev pub counted : Option ℕ × List Row → Option (ℕ × ℕ) × List Row
  counted (none, landed) = (none, landed)
  counted (some loaded, landed) = (some (loaded, length landed), landed)

  module _ (settings : Settings) (asset : Asset Row) where
    abbrev pub land_from : ℕ → Option (Table Row) → List Row → Option (ℕ × ℕ) × List Row
    land_from calls none landed = (none, landed)
    land_from calls (some table) landed =
        counted (land asset.ingest_ts calls settings.landing_batch_rows table.rows landed)

    unfoldable pub materialize_landing : ℕ → Catalog Row → List Row → Option (ℕ × ℕ) × List Row
    materialize_landing calls catalog landed =
        land_from calls (StrDict.lookup asset.table_name catalog.tables) landed

module _ (py : Pydantic) (texts : Texts) (deserialize : Deserializer) (settings : Settings) where
  -- posts_bronze and posts_landing
  abbrev pub posts_asset : Asset BronzeRow
  posts_asset = record {
    vertical = posts_vertical py texts deserialize settings;
    table_name = settings.bronze_table;
    schema = posts_iceberg_schema;
    spec = partition_spec;
    consumer = build_consumer settings settings.topic_posts settings.bronze_consumer_group;
    ingest_ts = λ r. r.ingest_ts;
  }

  -- likes_bronze and likes_landing
  abbrev pub likes_asset : Asset LikeRow
  likes_asset = record {
    vertical = likes_vertical py texts deserialize settings;
    table_name = settings.bronze_table_likes;
    schema = likes_iceberg_schema;
    spec = partition_spec;
    consumer = build_consumer settings settings.topic_likes settings.bronze_consumer_group_likes;
    ingest_ts = λ r. r.ingest_ts;
  }

  -- follows_bronze and follows_landing
  abbrev pub follows_asset : Asset FollowRow
  follows_asset = record {
    vertical = follows_vertical py texts deserialize settings;
    table_name = settings.bronze_table_follows;
    schema = follows_iceberg_schema;
    spec = partition_spec;
    consumer =
        build_consumer settings settings.topic_follows settings.bronze_consumer_group_follows;
    ingest_ts = λ r. r.ingest_ts;
  }

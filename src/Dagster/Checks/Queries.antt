-- ===== src/Dagster/Checks/Queries.antt =====
-- The nine asset checks of dagster/bsky_dagster/checks.py, over the Iceberg catalog and over ClickHouse:
-- which table each reads, and by which query.
use Prim.Native.String.{◌++◌ as ◌+++◌}
use bluesky_trends.Prelude.{ℕ, String, Option, none, some, List, map}
use bluesky_trends.Prelude.StrDict
use bluesky_trends.Dagster.Config.{Settings}
use bluesky_trends.Dagster.Decode.{BronzeRow, LikeRow, FollowRow}
use bluesky_trends.Dagster.Iceberg.{Table, Catalog}
use bluesky_trends.Dagster.Checks.{
  CheckResult, Average, scalar, bronze_freshness, mart_volume, stg_null_rate,
}

-- What ClickHouse answers to a query that counts, and to one that averages: the first column.
pub record ClickHouse : Type 0 where
  pub counts : String → List ℕ
  pub averages : String → List Average

-- The queries of `_mart_volume` and `_stg_null_rate`.
abbrev pub latest_query : String → String
latest_query mart =
    "SELECT count() FROM " +++ mart +++ " FINAL WHERE day = (SELECT max(day) FROM " +++ mart
    +++ " FINAL)"

abbrev pub trailing_query : String → String
trailing_query mart =
    "SELECT avg(c) FROM (SELECT day, count() AS c FROM " +++ mart
    +++ " FINAL WHERE day < (SELECT max(day) FROM " +++ mart +++ " FINAL) GROUP BY day)"

abbrev pub null_query : String → String
null_query stg = "SELECT countIf(did = '' OR rkey = '' OR cid = '') FROM " +++ stg +++ " FINAL"

module _ {Row : Type 0} where
  abbrev pub freshness_in : (Row → ℕ) → ℕ → Option (Table Row) → Option CheckResult
  freshness_in created_at now none = none
  freshness_in created_at now (some table) = some (bronze_freshness now (map created_at table.rows))

  -- `_bronze_freshness`; `none` is that there is no such table.
  unfoldable pub bronze_freshness_of : (Row → ℕ) → String → ℕ → Catalog Row → Option CheckResult
  bronze_freshness_of created_at bronze_table now catalog =
      freshness_in created_at now (StrDict.lookup bronze_table catalog.tables)

-- `_mart_volume` and `_stg_null_rate`
unfoldable pub mart_volume_of : ClickHouse → String → CheckResult
mart_volume_of ch mart =
    mart_volume (scalar (ch.counts (latest_query mart)))
      (scalar (ch.averages (trailing_query mart)))

unfoldable pub stg_null_rate_of : ClickHouse → String → CheckResult
stg_null_rate_of ch stg = stg_null_rate (scalar (ch.counts (null_query stg)))

module _ (settings : Settings) where
  abbrev pub check_bronze_freshness : ℕ → Catalog BronzeRow → Option CheckResult
  check_bronze_freshness = bronze_freshness_of (λ r. r.created_at) settings.bronze_table

  abbrev pub check_likes_bronze_freshness : ℕ → Catalog LikeRow → Option CheckResult
  check_likes_bronze_freshness = bronze_freshness_of (λ r. r.created_at) settings.bronze_table_likes

  abbrev pub check_follows_bronze_freshness : ℕ → Catalog FollowRow → Option CheckResult
  check_follows_bronze_freshness =
      bronze_freshness_of (λ r. r.created_at) settings.bronze_table_follows

module _ (ch : ClickHouse) where
  abbrev pub check_mart_volume : CheckResult
  check_mart_volume = mart_volume_of ch "mart_posts_by_lang_daily"

  abbrev pub check_likes_mart_volume : CheckResult
  check_likes_mart_volume = mart_volume_of ch "mart_likes_by_subject_daily"

  abbrev pub check_follows_mart_volume : CheckResult
  check_follows_mart_volume = mart_volume_of ch "mart_follows_by_subject_daily"

  abbrev pub check_stg_null_rate : CheckResult
  check_stg_null_rate = stg_null_rate_of ch "stg_posts"

  abbrev pub check_likes_stg_null_rate : CheckResult
  check_likes_stg_null_rate = stg_null_rate_of ch "stg_likes"

  abbrev pub check_follows_stg_null_rate : CheckResult
  check_follows_stg_null_rate = stg_null_rate_of ch "stg_follows"

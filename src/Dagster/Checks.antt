-- ===== src/Dagster/Checks.antt =====
-- dagster/bsky_dagster/checks.py and `scalar` of resources/clickhouse.py: the asset checks, as
-- decisions on what the queries return. `now` and `created_at` are in microseconds, as a datetime.
pub mod Decisions
pub mod Queries
pub mod AfterRun
use bluesky_trends.Prelude.{
  ℕ, ◌+◌, ◌*◌, ◌-◌, Bool, true, false, not, ◌||◌, Option, none, some, List, [], ◌∷◌, leb, ◌==◌, max,
  if◌then◌else◌,
}
use bluesky_trends.Ingest.Config.{Ratio}

pub data Severity : Type 0 where
  warn error : Severity

-- `AssetCheckResult`, whose default severity is an error.
pub record CheckResult : Type 0 where
  pub passed : Bool
  pub severity : Severity

-- `_BRONZE_FRESHNESS_MAX_LAG_S`, in seconds.
abbrev pub bronze_freshness_max_lag : ℕ
bronze_freshness_max_lag = 24 * 3600

-- `max` of a column that has values.
unfoldable pub newest_of : ℕ → List ℕ → ℕ
newest_of t [] = t
newest_of t (u ∷ us) = newest_of (max t u) us

-- `_bronze_freshness`, on the column `created_at`: the lag is negative for a time ahead of `now`.
unfoldable pub bronze_freshness : ℕ → List ℕ → CheckResult
unfolding newest_of
bronze_freshness now [] = record { passed = false; severity = error }
bronze_freshness now (t ∷ ts) = record {
  passed = leb now (newest_of t ts + bronze_freshness_max_lag * 1_000_000);
  severity = warn;
}

-- `scalar`: the first value of the first row, if there is a row.
abbrev pub scalar {ℓ} : {A : Type ℓ} → List A → Option A
scalar [] = none
scalar (v ∷ _) = some v

-- What ClickHouse gives for `avg`: a fraction, or NaN for no rows.
pub data Average : Type 0 where
  nan : Average
  average : Ratio → Average

-- `latest or 0`
abbrev pub or_zero : Option ℕ → ℕ
or_zero none = 0
or_zero (some n) = n

-- `latest >= 0.25 * trailing`
unfoldable pub enough : ℕ → Ratio → Bool
enough latest trailing = leb trailing.num (4 * latest * trailing.den)

-- `_mart_volume`
unfoldable pub mart_volume : Option ℕ → Option Average → CheckResult
mart_volume latest none = record { passed = true; severity = error }
mart_volume latest (some nan) = record { passed = true; severity = error }
mart_volume latest (some (average trailing)) =
    if trailing.num == 0
    then record { passed = true; severity = error }
    else record { passed = enough (or_zero latest) trailing; severity = warn }

-- `_stg_null_rate`
unfoldable pub stg_null_rate : Option ℕ → CheckResult
stg_null_rate bad = record { passed = or_zero bad == 0; severity = error }

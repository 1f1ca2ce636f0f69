-- ===== src/Tests/Iceberg.antt =====
-- The theorem on `ensure_table` at a concrete catalog.
use bluesky_trends.Prelude.{ℕ, ◌≡◌, refl, some, [], ◌∷◌}
use bluesky_trends.Prelude.StrDict
use bluesky_trends.Dagster.Config.{default_settings}
use bluesky_trends.Dagster.Schema.{partition_spec, posts_iceberg_schema}
use bluesky_trends.Dagster.Iceberg.{Catalog, ensure_table}
use bluesky_trends.Samples.Catalog.{in_memory}
use bluesky_trends.Dagster.Iceberg.Ensure.{Ensured, or_new, ensure_table-loads}

-- A catalog with the likes table alone, whose rows are numbers.
abbrev catalog : Catalog ℕ
catalog = record {
  namespaces = [];
  tables = ("bronze.likes", record { schema = []; spec = partition_spec; rows = 1 ∷ [] }) ∷ [];
}

ensure_table-loads_example :
    let table = StrDict.lookup "bronze.posts" catalog.tables in
    (cat' : Catalog ℕ) × (ensure_table in_memory default_settings "bronze.posts"
        posts_iceberg_schema partition_spec catalog
      ≡ some (
        or_new in_memory default_settings "bronze.posts" posts_iceberg_schema partition_spec table,
        cat',
      ))
    × Ensured in_memory default_settings "bronze.posts" posts_iceberg_schema partition_spec
        catalog.tables table cat'
ensure_table-loads_example =
    ensure_table-loads in_memory default_settings "bronze.posts" posts_iceberg_schema partition_spec
      catalog refl

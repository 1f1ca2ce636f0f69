-- ===== src/Dagster/Iceberg.antt =====
-- `ensure_table` of dagster/bsky_dagster/resources/iceberg.py over pyiceberg, which is an interface
-- with what the code relies on as laws. A catalog is seen as its namespaces and its tables.
pub mod Ensure
use bluesky_trends.Prelude.{
  String, ◌≡◌, Bool, true, false, Option, none, some, List, [], ◌∷◌, str_eq, if◌then◌else◌,
}
use bluesky_trends.Prelude.StrDict
use bluesky_trends.Prelude.StrDict.{StrDict}
use bluesky_trends.Schemas.{one_of}
use bluesky_trends.Dagster.Config.{Settings}
use bluesky_trends.Dagster.Schema.{NestedField, PartitionField}

pub record Table (Row : Type 0) : Type 0 where
  pub schema : List NestedField
  pub spec : PartitionField
  pub rows : List Row

pub record Catalog (Row : Type 0) : Type 0 where
  pub namespaces : List String
  pub tables : StrDict (Table Row)

-- The methods of pyiceberg's catalog that the program calls and that change it.
pub record Pyiceberg (Row : Type 0) : Type 0 where
  -- the namespace that a table's name begins with
  pub namespace_of : String → String
  pub create_namespace_if_not_exists : String → Catalog Row → Catalog Row
  -- `none` is an exception
  pub create_table : String → List NestedField → PartitionField → Catalog Row → Option (Catalog Row)
  -- The namespace is there afterwards, and the tables are as they were.
  pub creates_namespace :
      (ns : String) (cat : Catalog Row)
      → one_of ns (create_namespace_if_not_exists ns cat).namespaces ≡ true
  pub keeps_tables :
      (ns : String) (cat : Catalog Row)
      → (create_namespace_if_not_exists ns cat).tables ≡ cat.tables
  -- In a namespace that is there, a table that is not there is created: it has the schema and the
  -- partition spec and no rows, and the other tables are as they were.
  pub creates_table :
      (name : String) (schema : List NestedField) (spec : PartitionField) (cat : Catalog Row)
      → one_of (namespace_of name) cat.namespaces ≡ true
      → StrDict.lookup name cat.tables ≡ none
      → (cat' : Catalog Row) × (create_table name schema spec cat ≡ some cat')
        × ((other : String)
            → StrDict.lookup other cat'.tables ≡ (
                if str_eq other name
                then some (record { schema = schema; spec = spec; rows = [] })
                else StrDict.lookup other cat.tables))

module _ {Row : Type 0} (iceberg : Pyiceberg Row) where
  -- `load_table`; `none` is that there is no such table.
  abbrev pub loaded : String → Catalog Row → Option (Table Row × Catalog Row)
  loaded name cat = elim (StrDict.lookup name cat.tables) [ none ↦ none | some t ↦ some (t, cat) ]

  abbrev pub load_created : String → Option (Catalog Row) → Option (Table Row × Catalog Row)
  load_created name none = none
  load_created name (some cat) = loaded name cat

  unfoldable pub ensure_table :
      Settings
      → String
      → List NestedField
      → PartitionField
      → Catalog Row
      → Option (Table Row × Catalog Row)
  unfolding StrDict.lookup
  ensure_table settings name schema spec cat =
      let ready = iceberg.create_namespace_if_not_exists settings.iceberg_namespace cat in
      elim (StrDict.lookup name ready.tables) [
        | none ↦ load_created name (iceberg.create_table name schema spec ready)
        | some _ ↦ loaded name ready
      ]

-- ===== src/Samples/Catalog.antt =====
-- An Iceberg catalog in memory, whose tables are all in the namespace `bronze`.
use bluesky_trends.Prelude.{
  String, ◌≡◌, refl, true, Option, none, some, List, ◌∷◌, [], arith, str_eq, eq_iff, if◌then◌else◌,
}
use bluesky_trends.Prelude.StrDict
use bluesky_trends.Prelude.StrDict.{lookup-insert}
use bluesky_trends.Schemas.{one_of}
use bluesky_trends.Dagster.Schema.{NestedField, PartitionField}
use bluesky_trends.Dagster.Iceberg.{Table, Catalog, Pyiceberg}

module _ {Row : Type 0} where
  unfoldable pub with_namespace : String → Catalog Row → Catalog Row
  with_namespace ns cat =
      if one_of ns cat.namespaces then cat else record cat { namespaces = ns ∷ cat.namespaces }

  pub has_namespace :
      (ns : String) (cat : Catalog Row) → one_of ns (with_namespace ns cat).namespaces ≡ true
  unfolding with_namespace one_of
  has_namespace ns cat = ground (arith, eq_iff ns ns)

  pub same_tables : (ns : String) (cat : Catalog Row) → (with_namespace ns cat).tables ≡ cat.tables
  unfolding with_namespace
  same_tables ns cat = ground arith

  unfoldable pub with_table :
      String → List NestedField → PartitionField → Catalog Row → Option (Catalog Row)
  with_table name schema spec cat =
      if one_of "bronze" cat.namespaces
      then some (record cat {
        tables =
            StrDict.insert name (record { schema = schema; spec = spec; rows = [] }) cat.tables;
      })
      else none

  pub has_table :
      (name : String) (schema : List NestedField) (spec : PartitionField) (cat : Catalog Row)
      → one_of "bronze" cat.namespaces ≡ true
      → (cat' : Catalog Row) × (with_table name schema spec cat ≡ some cat')
        × ((other : String)
            → StrDict.lookup other cat'.tables ≡ (
                if str_eq other name
                then some (record { schema = schema; spec = spec; rows = [] })
                else StrDict.lookup other cat.tables))
  unfolding with_table
  has_table name schema spec cat ns =
      let t : Table Row = record { schema = schema; spec = spec; rows = [] } in
      (
        record cat { tables = StrDict.insert name t cat.tables },
        rw ns refl,
        λ other. lookup-insert other name t cat.tables,
      )

  abbrev pub in_memory : Pyiceberg Row
  in_memory = record {
    namespace_of = λ name. "bronze";
    create_namespace_if_not_exists = λ ns cat. with_namespace ns cat;
    create_table = λ name schema spec cat. with_table name schema spec cat;
    creates_namespace = λ ns cat. has_namespace ns cat;
    keeps_tables = λ ns cat. same_tables ns cat;
    creates_table = λ name schema spec cat ns absent. has_table name schema spec cat ns;
  }

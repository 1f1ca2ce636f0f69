-- ===== src/Dagster/Iceberg/Ensure.antt =====
-- What `ensure_table` of resources/iceberg.py returns, and leaves in the catalog.
use bluesky_trends.Prelude.{
  String, ◌≡◌, refl, ◌∙◌, true, Option, none, some, List, [], arith, str_eq, eq_iff, if◌then◌else◌,
}
use bluesky_trends.Prelude.StrDict
use bluesky_trends.Prelude.StrDict.{lookup-insert}
use bluesky_trends.Schemas.{one_of}
use bluesky_trends.Dagster.Config.{Settings}
use bluesky_trends.Dagster.Schema.{NestedField, PartitionField}
use bluesky_trends.Dagster.Iceberg.{Table, Catalog, Pyiceberg, loaded, load_created, ensure_table}

module _ {Row : Type 0} (iceberg : Pyiceberg Row) (settings : Settings) (name : String)
    (schema : List NestedField) (spec : PartitionField) where
  abbrev new_table : Table Row
  new_table = record { schema = schema; spec = spec; rows = [] }

  -- The table that is there, or a new one.
  abbrev pub or_new : Option (Table Row) → Table Row
  or_new none = new_table
  or_new (some t) = t

  -- The second part of `ensure_table`, on the catalog that has the namespace.
  abbrev rest : Catalog Row → Option (Table Row) → Option (Table Row × Catalog Row)
  rest ready none = load_created iceberg name (iceberg.create_table name schema spec ready)
  rest ready (some _) = loaded iceberg name ready

  abbrev pub Ensured : StrDict.StrDict (Table Row) → Option (Table Row) → Catalog Row → Type 0
  Ensured tables o cat' =
      (other : String)
      → StrDict.lookup other cat'.tables
        ≡ (if str_eq other name then some (or_new o) else StrDict.lookup other tables)

  rest-loads :
      (ready : Catalog Row) (o : Option (Table Row))
      → StrDict.lookup name ready.tables ≡ o
      → one_of (iceberg.namespace_of name) ready.namespaces ≡ true
      → (cat' : Catalog Row) × (rest ready o ≡ some (or_new o, cat')) × Ensured ready.tables o cat'
  rest-loads ready none absent ns =
      let (cat', made, has) = iceberg.creates_table name schema spec ready ns absent in
      (cat', ground (arith, made, has name, eq_iff name name), has)
  rest-loads ready (some t) there ns =
      (ready, ground (arith, there), λ other. ground (arith, eq_iff other name, there))

  rest-at :
      (ready : Catalog Row) (o : Option (Table Row))
      → StrDict.lookup name ready.tables ≡ o
      → (elim (StrDict.lookup name ready.tables) as (λ _. Option (Table Row × Catalog Row)) [
        | none ↦ load_created iceberg name (iceberg.create_table name schema spec ready)
        | some _ ↦ loaded iceberg name ready
      ])
        ≡ rest ready o
  rest-at ready none e = ground (arith, e)
  rest-at ready (some t) e = ground (arith, e)

  -- Where the table's name begins with the namespace of the settings, `ensure_table` returns the
  -- table that the catalog has under the name, with its rows, or, if it has none, a new and empty
  -- one with the schema and the partition spec; and the catalog has it under the name afterwards,
  -- with every other table as it was.
  pub ensure_table-loads :
      (cat : Catalog Row)
      → iceberg.namespace_of name ≡ settings.iceberg_namespace
      → (cat' : Catalog Row) × (ensure_table iceberg settings name schema spec cat
          ≡ some (or_new (StrDict.lookup name cat.tables), cat'))
        × Ensured cat.tables (StrDict.lookup name cat.tables) cat'
  unfolding ensure_table
  ensure_table-loads cat e =
      let ready = iceberg.create_namespace_if_not_exists settings.iceberg_namespace cat in
      let ns = iceberg.creates_namespace settings.iceberg_namespace cat in
      let same = iceberg.keeps_tables settings.iceberg_namespace cat in
      let (cat', made, ensured) =
        rest-loads ready (StrDict.lookup name cat.tables) (rw same refl) (rw e ns) in
      (
        cat',
        rest-at ready (StrDict.lookup name cat.tables) (rw same refl) ∙ made,
        rw same at ensured,
      )

-- ===== src/Dagster/Materialize/Result.antt =====
-- The `MaterializeResult` of assets/bronze.py against the catalog before and after the run.
use bluesky_trends.Prelude.{
  ℕ, ◌≡◌, refl, String, Option, none, some, List, [], ◌++◌, arith, length, length-append, str_eq,
  if◌then◌else◌, ap, sym, ◌∙◌,
}
use mathlib.Core.List.{append-nil}
use bluesky_trends.Prelude.Dict.{Dict}
use bluesky_trends.Prelude.StrDict
use bluesky_trends.Prelude.StrDict.{lookup-insert}
use bluesky_trends.Dagster.Config.{Settings}
use bluesky_trends.Dagster.Iceberg.{Table, Catalog, Pyiceberg}
use bluesky_trends.Dagster.Iceberg.Ensure.{or_new, Ensured, ensure_table-loads}
use bluesky_trends.Dagster.Bronze.{
  Poll, Vertical, Archive, Status, going, stopped, failed, archive, new_archive,
}
use bluesky_trends.Dagster.Bronze.Rows.{all_rows, all_dlq, archive_complete}
use bluesky_trends.Dagster.Materialize.{
  Asset, BronzeResult, materialized, Platform, bronze_run, run_on, materialize_bronze, result_of,
}
use bluesky_trends.Dagster.Materialize.Counts.{archive-Counted}

module _ {Row : Type 0} where
  -- The rows of the table that the asset begins with.
  abbrev pub rows_before : Option (Table Row) → List Row
  rows_before none = []
  rows_before (some t) = t.rows

  -- The result `r` of a run that handled the records of `first`, whose table had the rows `before`
  -- and has the rows `rows` now.
  pub record Reports (v : Vertical Row) (before : List Row) (first : List Poll) (rows : List Row)
      (r : BronzeResult) : Type 0 where
    pub appended : rows ≡ before ++ all_rows v first
    pub archived : r.archived_this_run ≡ length (all_rows v first)
    pub quarantined : r.dlq_this_run ≡ length (all_dlq v first)
    pub total : r.bronze_total_rows ≡ length rows

  Reports-from :
      (v : Vertical Row) {before before' : List Row} {first : List Poll} {rows : List Row}
      {r : BronzeResult}
      → before ≡ before'
      → Reports v before first rows r
      → Reports v before' first rows r
  Reports-from v e h = rw e at h

  result_of-materialized :
      (st : Status) (s : Archive Row) (r : BronzeResult)
      → result_of st s ≡ materialized r
      → (st ≡ stopped)
        × (r.archived_this_run ≡ s.archived)
        × (r.dlq_this_run ≡ s.dlq_count)
        × (r.bronze_total_rows ≡ length s.table)
  result_of-materialized going s r e = absurd (cc)
  result_of-materialized stopped s r e = (refl, ground arith, ground arith, ground arith)
  result_of-materialized (failed f) s r e = absurd (cc)

  run-Reports :
      (v : Vertical Row) (batch_rows batch_seconds now max_rows : ℕ) (polls : List Poll)
      (last : Poll) (before : List Row) (committed : Dict ℕ) (r : BronzeResult)
      → let (st, s') =
          archive v max_rows polls last
            (new_archive batch_rows batch_seconds now before committed) in
        result_of st s' ≡ materialized r
        → (first : List Poll) × (rest : List Poll) × (polls ≡ first ++ rest)
          × Reports v before first s'.table r
  run-Reports v batch_rows batch_seconds now max_rows polls last before committed r e =
      let begun = new_archive batch_rows batch_seconds now before committed in
      let (st, s') = archive v max_rows polls last begun in
      let (stops, a, q, t) = result_of-materialized st s' r e in
      let (first, rest, split, rows, sent) = archive_complete v max_rows polls last begun stops in
      let (counted, dlqs) =
        archive-Counted v (length before) max_rows polls last begun (omega arith, refl)
          (rw stops refl) in
      let grown : s'.table ≡ before ++ all_rows v first = rows ∙ rw append-nil refl in
      (
        first,
        rest,
        split,
        record {
          appended = grown;
          archived =
              omega
                (arith, a, counted, ap length grown, length-append {0} before (all_rows v first));
          quarantined = q ∙ sym dlqs ∙ ap length sent;
          total = t;
        },
      )

  -- The tables of the catalog after a run that leaves `t` under the name of the asset.
  abbrev pub Leaves : Asset Row → Table Row → Platform Row → Platform Row → Type 0
  Leaves asset t platform after =
      (other : String)
      → StrDict.lookup other after.catalog.tables ≡ (
          if str_eq other asset.table_name
          then some t
          else StrDict.lookup other platform.catalog.tables)

  -- What a result says of the platforms before and after.
  abbrev pub Truthful : Asset Row → List Poll → Platform Row → BronzeResult → Platform Row → Type 0
  Truthful asset polls platform r after =
      (first : List Poll) × (rest : List Poll) × (polls ≡ first ++ rest)
      × (t : Table Row) × Leaves asset t platform after
      × Reports asset.vertical
          (rows_before (StrDict.lookup asset.table_name platform.catalog.tables)) first t.rows r

  or_new-rows :
      (iceberg : Pyiceberg Row) (settings : Settings) (asset : Asset Row) (o : Option (Table Row))
      → (or_new iceberg settings asset.table_name asset.schema asset.spec o).rows ≡ rows_before o
  or_new-rows iceberg settings asset none = refl
  or_new-rows iceberg settings asset (some t) = refl

  run_on-Truthful :
      (iceberg : Pyiceberg Row) (settings : Settings) (asset : Asset Row) (now : ℕ)
      (polls : List Poll) (last : Poll) (platform : Platform Row) (table : Table Row)
      (cat : Catalog Row) (r : BronzeResult)
      → table.rows ≡ rows_before (StrDict.lookup asset.table_name platform.catalog.tables)
      → Ensured iceberg settings asset.table_name asset.schema asset.spec platform.catalog.tables
          (StrDict.lookup asset.table_name platform.catalog.tables)
          cat
      → let (o, after) =
          run_on iceberg settings asset now polls last platform (some (table, cat)) in
        o ≡ materialized r → Truthful asset polls platform r after
  run_on-Truthful iceberg settings asset now polls last platform table cat r same ensured e =
      let (st, s) = bronze_run iceberg settings asset now polls last table.rows platform in
      let (first, rest, split, reports) =
        run-Reports asset.vertical _ _ now _ polls last table.rows _ r e in
      (
        first,
        rest,
        split,
        record table { rows = s.table },
        λ other. ground (
          arith,
          lookup-insert other asset.table_name (record table { rows = s.table }) cat.tables,
          ensured other,
        ),
        Reports-from asset.vertical same reports,
      )

  -- A bronze asset whose table is in the namespace of the settings reports the truth when it ends
  -- with a result. It has handled the records of a first part of its polls: its table, which it
  -- creates if there is none, has gained exactly the rows that these decode to, as many as
  -- `archived_this_run` says; as many of them as `dlq_this_run` says do not decode; the table has
  -- `bronze_total_rows` rows; and every other table of the catalog is as it was.
  pub materialize_bronze-Truthful :
      (iceberg : Pyiceberg Row) (settings : Settings) (asset : Asset Row) (now : ℕ)
      (polls : List Poll) (last : Poll) (platform : Platform Row) (r : BronzeResult)
      → iceberg.namespace_of asset.table_name ≡ settings.iceberg_namespace
      → let (o, after) = materialize_bronze iceberg settings asset now polls last platform in
        o ≡ materialized r → Truthful asset polls platform r after
  unfolding materialize_bronze
  materialize_bronze-Truthful iceberg settings asset now polls last platform r ns =
      let (cat, made, ensured) =
        ensure_table-loads iceberg settings asset.table_name asset.schema asset.spec
          platform.catalog ns in
      rw made (
        run_on-Truthful iceberg settings asset now polls last platform _ cat r
          (or_new-rows iceberg settings asset
            (StrDict.lookup asset.table_name platform.catalog.tables))
          ensured)

-- ===== src/Dagster/Materialize/Pipeline.antt =====
-- A bronze asset of dagster/bsky_dagster/assets and the landing asset after it.
use bluesky_trends.Prelude.{
  ℕ, ◌<◌, ◌≤◌, ◌≡◌, refl, Option, none, some, List, [], ◌∷◌, ◌++◌, arith, All, eq_iff,
}
use bluesky_trends.Prelude.StrDict
use bluesky_trends.Json.{Fields}
use bluesky_trends.Dagster.Config.{Settings}
use bluesky_trends.Dagster.Decode.{Place, Decoded, row, dlq}
use bluesky_trends.Dagster.Iceberg.{Table, Pyiceberg}
use bluesky_trends.Dagster.Bronze.{Polled, nothing, kafka_error, message, Poll, place_at}
use bluesky_trends.Dagster.Bronze.Rows.{row_list, rows_of, all_rows}
use bluesky_trends.Dagster.Landing.{newest, land}
use bluesky_trends.Dagster.Landing.Watermark.{Newer, land-follows_bronze}
use bluesky_trends.Dagster.Materialize.{
  Asset, BronzeResult, materialized, Platform, materialize_bronze, materialize_landing, counted,
}
use bluesky_trends.Dagster.Materialize.Result.{
  rows_before, Reports, Leaves, materialize_bronze-Truthful,
}

-- The polls are read after the time `w`.
abbrev pub ReadAfter : ℕ → List Poll → Type 0
ReadAfter w polls = All (λ (x : Poll). w < x.wall) polls

ReadAfter-first : (w : ℕ) (first rest : List Poll) → ReadAfter w (first ++ rest) → ReadAfter w first
ReadAfter-first w [] rest h = tt
ReadAfter-first w (x ∷ first) rest h = (h.0, ReadAfter-first w first rest h.1)

module _ {Row : Type 0} where
  -- A decoded row has the time stamp at which its record was read.
  abbrev pub Stamps : Asset Row → Type 0
  Stamps asset =
      (d : Option Fields) (p : Place) (r : Row)
      → asset.vertical.decode d p ≡ row r
      → asset.ingest_ts r ≡ p.ingest_ts

  module _ (asset : Asset Row) (stamps : Stamps asset) (w : ℕ) where
    Newer-append :
        (l k : List Row)
        → Newer asset.ingest_ts w l
        → Newer asset.ingest_ts w k
        → Newer asset.ingest_ts w (l ++ k)
    Newer-append [] k h h' = h'
    Newer-append (r ∷ l) k h h' = (h.0, Newer-append l k h.1 h')

    row_list-Newer :
        (d : Option Fields) (p : Place) (x : Decoded Row)
        → asset.vertical.decode d p ≡ x
        → w < p.ingest_ts
        → Newer asset.ingest_ts w (row_list asset.vertical x)
    row_list-Newer d p (row r) e h = (omega (arith, stamps d p r e), tt)
    row_list-Newer d p (dlq q) e h = tt

    rows_of-Newer :
        (m : Polled) (x : Poll) → w < x.wall → Newer asset.ingest_ts w (rows_of asset.vertical m x)
    unfolding rows_of
    rows_of-Newer nothing x h = tt
    rows_of-Newer (kafka_error _ _) x h = tt
    rows_of-Newer (message (some p) (some o) value) x h =
        row_list-Newer (asset.vertical.deserialize value) (place_at asset.vertical x p o) _ refl h
    rows_of-Newer (message none _ value) x h = tt
    rows_of-Newer (message (some _) none value) x h = tt

    all_rows-Newer :
        (polls : List Poll)
        → ReadAfter w polls
        → Newer asset.ingest_ts w (all_rows asset.vertical polls)
    unfolding all_rows
    all_rows-Newer [] h = tt
    all_rows-Newer (x ∷ rest) h =
        Newer-append (rows_of asset.vertical x.polled x) _ (rows_of-Newer x.polled x h.0)
          (all_rows-Newer rest h.1)

  lands :
      (settings : Settings) (asset : Asset Row) (calls : ℕ) (before : List Row) (first : List Poll)
      (rows : List Row) (r : BronzeResult)
      → Stamps asset
      → ReadAfter (newest asset.ingest_ts before) first
      → 0 < settings.landing_batch_rows
      → r.archived_this_run ≤ calls
      → Reports asset.vertical before first rows r
      → counted (land asset.ingest_ts calls settings.landing_batch_rows rows before)
        ≡ (some (r.archived_this_run, r.bronze_total_rows), rows)
  lands settings asset calls before first rows r stamps read h enough reports =
      let new = all_rows asset.vertical first in
      let e =
        land-follows_bronze asset.ingest_ts calls settings.landing_batch_rows before new h
          (omega (arith, reports.archived))
          (all_rows-Newer asset stamps (newest asset.ingest_ts before) first read) in
      rw (reports.total, reports.archived, reports.appended, e) refl

  -- A bronze asset that ends with a result, and its landing asset after it. Let the table be in
  -- the namespace of the settings, all its rows have landed before, and all polls be read after
  -- the newest of them. Let a landing batch have a row at least, and ClickHouse take as many
  -- inserts as rows were archived. Then the landing asset loads as many rows as the bronze asset
  -- says that it has archived, and the landing table is the bronze table, of as many rows as the
  -- bronze asset says that it has.
  pub pipeline_lands :
      (iceberg : Pyiceberg Row) (settings : Settings) (asset : Asset Row) (now : ℕ)
      (polls : List Poll) (last : Poll) (platform : Platform Row) (r : BronzeResult) (calls : ℕ)
      → iceberg.namespace_of asset.table_name ≡ settings.iceberg_namespace
      → Stamps asset
      → let before = rows_before (StrDict.lookup asset.table_name platform.catalog.tables) in
        let (o, after) = materialize_bronze iceberg settings asset now polls last platform in
        ReadAfter (newest asset.ingest_ts before) polls
        → 0 < settings.landing_batch_rows
        → r.archived_this_run ≤ calls
        → o ≡ materialized r
        → (t : Table Row) × Leaves asset t platform after
          × (materialize_landing settings asset calls after.catalog before
              ≡ (some (r.archived_this_run, r.bronze_total_rows), t.rows))
  unfolding materialize_landing
  pipeline_lands iceberg settings asset now polls last platform r calls ns stamps read h enough e =
      let (first, rest, split, t, leaves, reports) =
        materialize_bronze-Truthful iceberg settings asset now polls last platform r ns e in
      let before = rows_before (StrDict.lookup asset.table_name platform.catalog.tables) in
      let read' = ReadAfter-first (newest asset.ingest_ts before) first rest (rw split at read) in
      (
        t,
        leaves,
        ground (
          arith,
          leaves asset.table_name,
          eq_iff asset.table_name asset.table_name,
          lands settings asset calls before first t.rows r stamps read' h enough reports,
        ),
      )

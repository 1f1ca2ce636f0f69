-- ===== src/Dagster/Schema/Table.antt =====
-- `to_arrow` of the three batches, and how the landing assets read a table's rows back.
pub mod Rows
use bluesky_trends.Prelude.{
  ℕ, String, Bool, true, false, Option, none, some, List, [], ◌∷◌, ◌++◌, map, if◌then◌else◌,
}
use bluesky_trends.Prelude.StrDict
use bluesky_trends.Prelude.StrDict.{StrDict}
use bluesky_trends.Json.{Value, int, str, datetime, arr}
use bluesky_trends.Schemas.{str_items}
use bluesky_trends.Schemas.Dump.{opt_str}
use bluesky_trends.Dagster.Decode.{BronzeRow, LikeRow, FollowRow}
use bluesky_trends.Dagster.Schema.{
  ArrowField, posts_arrow_schema, likes_arrow_schema, follows_arrow_schema,
}

-- A table: its columns in the order of the schema.
abbrev pub Columns : Type 0
Columns = StrDict (List Value)

-- `{name: [] for name in schema.names}`
unfoldable pub no_rows : List ArrowField → Columns
no_rows [] = []
no_rows (f ∷ fs) = (f.name, []) ∷ no_rows fs

abbrev pub appended : String → Value → Columns → Option (List Value) → Option Columns
appended name v columns none = none
appended name v columns (some column) = some (StrDict.insert name (column ++ v ∷ []) columns)

-- `columns[name].append(v)`; `none` is a `KeyError`.
unfoldable pub append_cell : String → Value → Columns → Option Columns
append_cell name v columns = appended name v columns (StrDict.lookup name columns)

unfoldable pub append_cells : List (String × Value) → Columns → Option Columns
unfolding append_cell
append_cells [] columns = some columns
append_cells ((name, v) ∷ cells) columns = elim (append_cell name v columns) [
  | none ↦ none
  | some columns' ↦ append_cells cells columns'
]

module _ {Row : Type 0} (cells : Row → List (String × Value)) where
  unfoldable pub append_rows : List Row → Columns → Option Columns
  append_rows [] columns = some columns
  append_rows (r ∷ rows) columns = elim (append_cells (cells r) columns) [
    | none ↦ none
    | some columns' ↦ append_rows rows columns'
  ]

abbrev pub post_cells : BronzeRow → List (String × Value)
post_cells r =
    ("did", str r.did)
    ∷ ("rkey", str r.rkey)
    ∷ ("cid", str r.cid)
    ∷ ("created_at", datetime r.created_at)
    ∷ ("text", str r.text)
    ∷ ("langs", arr (str_items r.langs))
    ∷ ("reply_parent", opt_str r.reply_parent)
    ∷ ("reply_root", opt_str r.reply_root)
    ∷ ("kafka_partition", int r.kafka_partition)
    ∷ ("kafka_offset", int r.kafka_offset)
    ∷ ("ingest_ts", datetime r.ingest_ts)
    ∷ []

unfoldable pub posts_to_arrow : List BronzeRow → Option Columns
unfolding append_rows append_cells no_rows posts_arrow_schema
posts_to_arrow rows = append_rows post_cells rows (no_rows posts_arrow_schema)

abbrev pub like_cells : LikeRow → List (String × Value)
like_cells r =
    ("did", str r.did)
    ∷ ("rkey", str r.rkey)
    ∷ ("cid", str r.cid)
    ∷ ("created_at", datetime r.created_at)
    ∷ ("subject_uri", str r.subject_uri)
    ∷ ("subject_cid", str r.subject_cid)
    ∷ ("kafka_partition", int r.kafka_partition)
    ∷ ("kafka_offset", int r.kafka_offset)
    ∷ ("ingest_ts", datetime r.ingest_ts)
    ∷ []

unfoldable pub likes_to_arrow : List LikeRow → Option Columns
unfolding append_rows append_cells no_rows likes_arrow_schema
likes_to_arrow rows = append_rows like_cells rows (no_rows likes_arrow_schema)

abbrev pub follow_cells : FollowRow → List (String × Value)
follow_cells r =
    ("did", str r.did)
    ∷ ("rkey", str r.rkey)
    ∷ ("cid", str r.cid)
    ∷ ("created_at", datetime r.created_at)
    ∷ ("subject_did", str r.subject_did)
    ∷ ("kafka_partition", int r.kafka_partition)
    ∷ ("kafka_offset", int r.kafka_offset)
    ∷ ("ingest_ts", datetime r.ingest_ts)
    ∷ []

unfoldable pub follows_to_arrow : List FollowRow → Option Columns
unfolding append_rows append_cells no_rows follows_arrow_schema
follows_to_arrow rows = append_rows follow_cells rows (no_rows follows_arrow_schema)

-- The first values of the columns, if all have one.
unfoldable pub heads : List (List Value) → Option (List Value × List (List Value))
heads [] = some ([], [])
heads ([] ∷ columns) = none
heads ((v ∷ column) ∷ columns) = elim (heads columns) [
  | none ↦ none
  | some (vs, rest) ↦ some (v ∷ vs, column ∷ rest)
]

unfoldable pub all_empty : List (List Value) → Bool
all_empty [] = true
all_empty ([] ∷ columns) = all_empty columns
all_empty ((v ∷ column) ∷ columns) = false

abbrev pub joined : List Value → Option (List (List Value)) → Option (List (List Value))
joined vs none = none
joined vs (some rows) = some (vs ∷ rows)

-- `zip(*columns, strict=True)` for a first column and the others; `none` is a `ValueError`.
unfoldable pub zip_strict : List Value → List (List Value) → Option (List (List Value))
unfolding heads all_empty
zip_strict [] columns = if all_empty columns then some [] else none
zip_strict (v ∷ column) columns = elim (heads columns) [
  | none ↦ none
  | some (vs, rest) ↦ joined (v ∷ vs) (zip_strict column rest)
]

-- The rows of a table that `_insert_arrow` inserts.
unfoldable pub table_rows : Columns → Option (List (List Value))
unfolding zip_strict
table_rows [] = some []
table_rows ((_, column) ∷ columns) =
    zip_strict column (map (λ (c : String × List Value). c.1) columns)

-- ===== src/Dagster/Schema/Table/Rows.antt =====
-- `to_arrow` of the batches, and the rows that a landing asset reads from its table.
use bluesky_trends.Prelude.{String, ◌≡◌, refl, sym, ap, ◌∙◌, Option, some, List, [], ◌∷◌, ◌++◌, map}
use mathlib.Core.List.{append-nil, append_assoc}
use bluesky_trends.Prelude.StrDict
use bluesky_trends.Json.{Value, int, str, datetime, arr}
use bluesky_trends.Schemas.{str_items}
use bluesky_trends.Schemas.Dump.{opt_str}
use bluesky_trends.Dagster.Decode.{BronzeRow, LikeRow, FollowRow}
use bluesky_trends.Dagster.Schema.{
  bronze_columns, bronze_columns_likes, bronze_columns_follows, posts_arrow_schema,
  likes_arrow_schema, follows_arrow_schema,
}
use bluesky_trends.Dagster.Schema.Table.{
  Columns, no_rows, append_cell, append_cells, append_rows, post_cells, posts_to_arrow, like_cells,
  likes_to_arrow, follow_cells, follows_to_arrow, heads, all_empty, zip_strict, table_rows,
}

map-append {ℓ} : {A B : Type ℓ} (f : A → B) (l k : List A) → map f (l ++ k) ≡ map f l ++ map f k
map-append f [] k = refl
map-append f (x ∷ l) k = ap (λ t. f x ∷ t) (map-append f l k)

module _ {Row : Type 0} (cells : Row → List (String × Value)) (columns_of : List Row → Columns)
    (appends : (r : Row) (rows : List Row)
      → append_cells (cells r) (columns_of rows) ≡ some (columns_of (rows ++ r ∷ []))) where
  append_rows-step :
      (r : Row) (rows : List Row) (columns columns' : Columns)
      → append_cells (cells r) columns ≡ some columns'
      → append_rows cells (r ∷ rows) columns ≡ append_rows cells rows columns'
  unfolding append_rows
  append_rows-step r rows columns columns' e = rw (e, append_rows) refl

  append_rows-all :
      (rows done : List Row)
      → append_rows cells rows (columns_of done) ≡ some (columns_of (done ++ rows))
  append_rows-all [] done =
      unfold append_rows in ap (λ l. some (columns_of l)) (sym (append-nil done))
  append_rows-all (r ∷ rows) done =
      append_rows-step r rows (columns_of done) (columns_of (done ++ r ∷ [])) (appends r done)
      ∙ append_rows-all rows (done ++ r ∷ [])
      ∙ ap (λ l. some (columns_of l)) (append_assoc done (r ∷ []) rows)

-- The values of a row, in the order of the columns.
abbrev pub post_values : BronzeRow → List Value
post_values r =
    str r.did
    ∷ str r.rkey
    ∷ str r.cid
    ∷ datetime r.created_at
    ∷ str r.text
    ∷ arr (str_items r.langs)
    ∷ opt_str r.reply_parent
    ∷ opt_str r.reply_root
    ∷ int r.kafka_partition
    ∷ int r.kafka_offset
    ∷ datetime r.ingest_ts
    ∷ []

abbrev pub like_values : LikeRow → List Value
like_values r =
    str r.did
    ∷ str r.rkey
    ∷ str r.cid
    ∷ datetime r.created_at
    ∷ str r.subject_uri
    ∷ str r.subject_cid
    ∷ int r.kafka_partition
    ∷ int r.kafka_offset
    ∷ datetime r.ingest_ts
    ∷ []

abbrev pub follow_values : FollowRow → List Value
follow_values r =
    str r.did
    ∷ str r.rkey
    ∷ str r.cid
    ∷ datetime r.created_at
    ∷ str r.subject_did
    ∷ int r.kafka_partition
    ∷ int r.kafka_offset
    ∷ datetime r.ingest_ts
    ∷ []

-- The columns of a table of these rows.
abbrev pub post_columns : List BronzeRow → Columns
post_columns rows =
    ("did", map (λ (r : BronzeRow). str r.did) rows)
    ∷ ("rkey", map (λ (r : BronzeRow). str r.rkey) rows)
    ∷ ("cid", map (λ (r : BronzeRow). str r.cid) rows)
    ∷ ("created_at", map (λ (r : BronzeRow). datetime r.created_at) rows)
    ∷ ("text", map (λ (r : BronzeRow). str r.text) rows)
    ∷ ("langs", map (λ (r : BronzeRow). arr (str_items r.langs)) rows)
    ∷ ("reply_parent", map (λ (r : BronzeRow). opt_str r.reply_parent) rows)
    ∷ ("reply_root", map (λ (r : BronzeRow). opt_str r.reply_root) rows)
    ∷ ("kafka_partition", map (λ (r : BronzeRow). int r.kafka_partition) rows)
    ∷ ("kafka_offset", map (λ (r : BronzeRow). int r.kafka_offset) rows)
    ∷ ("ingest_ts", map (λ (r : BronzeRow). datetime r.ingest_ts) rows)
    ∷ []

post_columns-append :
    (r : BronzeRow) (rows : List BronzeRow)
    → append_cells (post_cells r) (post_columns rows) ≡ some (post_columns (rows ++ r ∷ []))
unfolding append_cells append_cell StrDict.lookup StrDict.insert
post_columns-append r rows = simp (map-append)

table_rows-posts :
    (rows : List BronzeRow) → table_rows (post_columns rows) ≡ some (map post_values rows)
unfolding table_rows zip_strict heads all_empty
table_rows-posts [] = refl
table_rows-posts (r ∷ rows) = rw (table_rows-posts rows) refl

abbrev pub like_columns : List LikeRow → Columns
like_columns rows =
    ("did", map (λ (r : LikeRow). str r.did) rows)
    ∷ ("rkey", map (λ (r : LikeRow). str r.rkey) rows)
    ∷ ("cid", map (λ (r : LikeRow). str r.cid) rows)
    ∷ ("created_at", map (λ (r : LikeRow). datetime r.created_at) rows)
    ∷ ("subject_uri", map (λ (r : LikeRow). str r.subject_uri) rows)
    ∷ ("subject_cid", map (λ (r : LikeRow). str r.subject_cid) rows)
    ∷ ("kafka_partition", map (λ (r : LikeRow). int r.kafka_partition) rows)
    ∷ ("kafka_offset", map (λ (r : LikeRow). int r.kafka_offset) rows)
    ∷ ("ingest_ts", map (λ (r : LikeRow). datetime r.ingest_ts) rows)
    ∷ []

like_columns-append :
    (r : LikeRow) (rows : List LikeRow)
    → append_cells (like_cells r) (like_columns rows) ≡ some (like_columns (rows ++ r ∷ []))
unfolding append_cells append_cell StrDict.lookup StrDict.insert
like_columns-append r rows = simp (map-append)

table_rows-likes :
    (rows : List LikeRow) → table_rows (like_columns rows) ≡ some (map like_values rows)
unfolding table_rows zip_strict heads all_empty
table_rows-likes [] = refl
table_rows-likes (r ∷ rows) = rw (table_rows-likes rows) refl

abbrev pub follow_columns : List FollowRow → Columns
follow_columns rows =
    ("did", map (λ (r : FollowRow). str r.did) rows)
    ∷ ("rkey", map (λ (r : FollowRow). str r.rkey) rows)
    ∷ ("cid", map (λ (r : FollowRow). str r.cid) rows)
    ∷ ("created_at", map (λ (r : FollowRow). datetime r.created_at) rows)
    ∷ ("subject_did", map (λ (r : FollowRow). str r.subject_did) rows)
    ∷ ("kafka_partition", map (λ (r : FollowRow). int r.kafka_partition) rows)
    ∷ ("kafka_offset", map (λ (r : FollowRow). int r.kafka_offset) rows)
    ∷ ("ingest_ts", map (λ (r : FollowRow). datetime r.ingest_ts) rows)
    ∷ []

follow_columns-append :
    (r : FollowRow) (rows : List FollowRow)
    → append_cells (follow_cells r) (follow_columns rows) ≡ some (follow_columns (rows ++ r ∷ []))
unfolding append_cells append_cell StrDict.lookup StrDict.insert
follow_columns-append r rows = simp (map-append)

table_rows-follows :
    (rows : List FollowRow) → table_rows (follow_columns rows) ≡ some (map follow_values rows)
unfolding table_rows zip_strict heads all_empty
table_rows-follows [] = refl
table_rows-follows (r ∷ rows) = rw (table_rows-follows rows) refl

-- A table of these columns was made, with these names in order, and these rows are read back from
-- it.
abbrev pub ReadsBack : List String → Columns → List (List Value) → Option Columns → Type 0
ReadsBack names columns rows table =
    (table ≡ some columns)
    × (map (λ (x : String × List Value). x.0) columns ≡ names)
    × (table_rows columns ≡ some rows)

-- `to_arrow` of a batch of posts, likes or follows makes a table with the columns of its schema, in
-- order, and no `KeyError`: each column has the values of its field. The rows that a landing asset
-- zips from these columns are the rows of the batch, each with its fields in the order of the
-- columns.
pub to_arrow-ReadsBack :
    (posts : List BronzeRow) (likes : List LikeRow) (follows : List FollowRow)
    → ReadsBack bronze_columns (post_columns posts) (map post_values posts) (posts_to_arrow posts)
      × ReadsBack bronze_columns_likes
          (like_columns likes)
          (map like_values likes)
          (likes_to_arrow likes)
      × ReadsBack bronze_columns_follows
          (follow_columns follows)
          (map follow_values follows)
          (follows_to_arrow follows)
unfolding posts_to_arrow likes_to_arrow follows_to_arrow no_rows posts_arrow_schema
    likes_arrow_schema follows_arrow_schema
to_arrow-ReadsBack posts likes follows = (
  (
    append_rows-all post_cells post_columns post_columns-append posts [],
    refl,
    table_rows-posts posts,
  ),
  (
    append_rows-all like_cells like_columns like_columns-append likes [],
    refl,
    table_rows-likes likes,
  ),
  (
    append_rows-all follow_cells follow_columns follow_columns-append follows [],
    refl,
    table_rows-follows follows,
  ),
)

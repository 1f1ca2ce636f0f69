-- ===== src/Dagster/Landing.antt =====
-- dagster/bsky_dagster/assets/landing.py, landing_likes.py and landing_follows.py, with
-- insert_block of resources/clickhouse.py: from the Iceberg table to the landing table. The three
-- assets differ in their tables and columns alone. Iceberg and ClickHouse are the lists of their
-- rows; how many inserts ClickHouse takes before one raises is an argument.
pub mod Blocks
pub mod Watermark
use bluesky_trends.Prelude.{
  ℕ, zero, suc, ◌+◌, ◌-◌, Bool, true, false, Option, none, some, List, [], ◌∷◌, ◌++◌, length, ltb,
  ◌==◌, max, if◌then◌else◌,
}
use bluesky_trends.Dagster.Config.{Settings}
use bluesky_trends.Dagster.Decode.{BronzeRow, LikeRow, FollowRow}

module _ {ℓ} {A : Type ℓ} where
  unfoldable pub take : ℕ → List A → List A
  take zero l = []
  take (suc n) [] = []
  take (suc n) (x ∷ l) = x ∷ take n l

  unfoldable pub drop : ℕ → List A → List A
  drop zero l = l
  drop (suc n) [] = []
  drop (suc n) (x ∷ l) = drop n l

module _ {Row : Type 0} where
  -- `arrow.slice(start, batch_rows)` for the starts of the `range`, with the rows that are left as
  -- the state, for at most `n` turns.
  unfoldable pub blocks : ℕ → ℕ → List Row → List (List Row)
  blocks zero batch_rows rows = []
  blocks (suc n) batch_rows [] = []
  blocks (suc n) batch_rows (r ∷ rows) =
      take batch_rows (r ∷ rows) ∷ blocks n batch_rows (drop batch_rows (r ∷ rows))

  abbrev pub add_total : ℕ → Option ℕ × List Row → Option ℕ × List Row
  add_total n (none, landed) = (none, landed)
  add_total n (some total, landed) = (some (n + total), landed)

  -- The body of the `for`, with `insert_block`: `none` is an insert that raises.
  unfoldable pub insert_blocks : ℕ → List (List Row) → List Row → Option ℕ × List Row
  insert_blocks calls [] landed = (some 0, landed)
  insert_blocks calls ([] ∷ rest) landed = insert_blocks calls rest landed
  insert_blocks zero ((r ∷ block) ∷ rest) landed = (none, landed)
  insert_blocks (suc calls) ((r ∷ block) ∷ rest) landed =
      add_total (length (r ∷ block)) (insert_blocks calls rest (landed ++ r ∷ block))

  -- `_insert_arrow`: the number of rows that were inserted; `range` raises on a step of 0.
  unfoldable pub insert_arrow : ℕ → ℕ → List Row → List Row → Option ℕ × List Row
  insert_arrow calls batch_rows rows landed =
      if batch_rows == 0
      then (none, landed)
      else insert_blocks calls (blocks (length rows) batch_rows rows) landed

  module _ (ingest_ts : Row → ℕ) where
    -- `max(ingest_ts)`, which is the epoch for an empty table.
    unfoldable pub newest : List Row → ℕ
    newest [] = 0
    newest (r ∷ rows) = max (ingest_ts r) (newest rows)

    -- The watermark: none while nothing has landed.
    unfoldable pub watermark : List Row → Option ℕ
    watermark landed = if length landed == 0 then none else some (newest landed)

    abbrev pub is_newer : Option ℕ → Row → Bool
    is_newer none r = true
    is_newer (some w) r = ltb w (ingest_ts r)

    -- `table.scan`, with the row filter if there is a watermark.
    unfoldable pub scan : Option ℕ → List Row → List Row
    scan w [] = []
    scan w (r ∷ rows) = let rest = scan w rows in if is_newer w r then r ∷ rest else rest

    -- The asset: the number of rows loaded, and the landing table after it.
    unfoldable pub land : ℕ → ℕ → List Row → List Row → Option ℕ × List Row
    land calls batch_rows bronze landed =
        let arrow = scan (watermark landed) bronze in
        if length arrow == 0 then (some 0, landed) else insert_arrow calls batch_rows arrow landed

-- The assets posts_landing, likes_landing and follows_landing.
module _ (settings : Settings) where
  abbrev pub posts_landing : ℕ → List BronzeRow → List BronzeRow → Option ℕ × List BronzeRow
  posts_landing calls bronze landed =
      land (λ r. r.ingest_ts) calls settings.landing_batch_rows bronze landed

  abbrev pub likes_landing : ℕ → List LikeRow → List LikeRow → Option ℕ × List LikeRow
  likes_landing calls bronze landed =
      land (λ r. r.ingest_ts) calls settings.landing_batch_rows bronze landed

  abbrev pub follows_landing : ℕ → List FollowRow → List FollowRow → Option ℕ × List FollowRow
  follows_landing calls bronze landed =
      land (λ r. r.ingest_ts) calls settings.landing_batch_rows bronze landed

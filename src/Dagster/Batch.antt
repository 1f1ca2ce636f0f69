-- ===== src/Dagster/Batch.antt =====
-- dagster/bsky_dagster/transforms/batch.py, batch_likes.py and batch_follows.py: the batch
-- accumulator. The three classes differ in their row type alone; where a row stands is its
-- `Place`.
pub mod Offsets
use bluesky_trends.Prelude.{
  ℕ, ◌+◌, Bool, true, false, ◌||◌, Option, none, some, List, [], ◌∷◌, ◌++◌, length, leb, ltb,
  if◌then◌else◌,
}
use bluesky_trends.Prelude.Dict.{Dict, lookup, insert}
use bluesky_trends.Dagster.Decode.{Place, BronzeRow, LikeRow, FollowRow}

pub record Batch (Row : Type 0) : Type 0 where
  pub max_rows : ℕ
  pub max_seconds : ℕ
  pub rows : List Row
  -- `_offsets`: partition to the highest offset that was added.
  pub offsets : Dict ℕ

-- The three classes.
abbrev pub BronzeBatch : Type 0
BronzeBatch = Batch BronzeRow

abbrev pub LikesBatch : Type 0
LikesBatch = Batch LikeRow

abbrev pub FollowsBatch : Type 0
FollowsBatch = Batch FollowRow

-- `__init__`
abbrev pub new_batch : {Row : Type 0} → ℕ → ℕ → Batch Row
new_batch max_rows max_seconds = record {
  max_rows = max_rows;
  max_seconds = max_seconds;
  rows = [];
  offsets = [];
}

-- `offset > self._offsets.get(partition, -1)`
abbrev pub is_higher : ℕ → Option ℕ → Bool
is_higher offset none = true
is_higher offset (some prev) = ltb prev offset

-- The high-water offset of the row's partition.
unfoldable pub raise_offset : Place → Dict ℕ → Dict ℕ
raise_offset p offsets =
    if is_higher p.kafka_offset (lookup p.kafka_partition offsets)
    then insert p.kafka_partition p.kafka_offset offsets
    else offsets

module _ {Row : Type 0} where
  unfoldable pub add : (Row → Place) → Row → Batch Row → Batch Row
  add place r batch = record batch {
    rows = batch.rows ++ r ∷ [];
    offsets = raise_offset (place r) batch.offsets;
  }

  -- `__len__`
  abbrev pub len : Batch Row → ℕ
  len batch = length batch.rows

  abbrev pub is_empty_list : List Row → Bool
  is_empty_list [] = true
  is_empty_list (_ ∷ _) = false

  abbrev pub is_empty : Batch Row → Bool
  is_empty batch = is_empty_list batch.rows

  unfoldable pub should_flush : ℕ → Batch Row → Bool
  should_flush elapsed_seconds batch =
      if is_empty batch
      then false
      else leb batch.max_rows (len batch) || leb batch.max_seconds elapsed_seconds

  unfoldable pub clear : Batch Row → Batch Row
  clear batch = record batch { rows = []; offsets = [] }

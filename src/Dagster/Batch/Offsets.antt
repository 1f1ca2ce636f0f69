-- ===== src/Dagster/Batch/Offsets.antt =====
-- The offsets of a batch (transforms/batch.py) against its rows.
use mathlib.Core.List.{append-nil, append_assoc}
use bluesky_trends.Prelude.{
  sym, ap, ◌∙◌, ℕ, ◌≡◌, refl, Option, none, some, List, [], ◌∷◌, ◌++◌, arith, ◌==◌, max,
  if◌then◌else◌,
}
use bluesky_trends.Prelude.Dict.{lookup, lookup-insert}
use bluesky_trends.Dagster.Decode.{Place}
use bluesky_trends.Dagster.Batch.{Batch, raise_offset, add, clear, new_batch}

-- The higher of an offset and another, if there is another.
abbrev pub higher : ℕ → Option ℕ → ℕ
higher o none = o
higher o (some q) = max o q

module _ {Row : Type 0} (place : Row → Place) where
  -- The highest offset of the partition among the rows, if it has rows.
  unfoldable pub highest : ℕ → List Row → Option ℕ
  highest p [] = none
  highest p (r ∷ rs) =
      let rest = highest p rs in
      if p == (place r).kafka_partition then some (higher (place r).kafka_offset rest) else rest

  -- Every partition's entry is the highest offset of its rows, and there is no other entry.
  pub record HasOffsets (b : Batch Row) : Type 0 where
    pub each : (p : ℕ) → lookup p b.offsets ≡ highest p b.rows

  highest-append :
      (p : ℕ) (r : Row) (rs : List Row)
      → highest p (rs ++ r ∷ []) ≡ (
          if p == (place r).kafka_partition
          then some (higher (place r).kafka_offset (highest p rs))
          else highest p rs)
  unfolding highest
  highest-append p r [] = ground arith
  highest-append p r (q ∷ rs) = ground (arith, highest-append p r rs)

  pub add-HasOffsets : (r : Row) (b : Batch Row) → HasOffsets b → HasOffsets (add place r b)
  unfolding add raise_offset
  add-HasOffsets r b h = record {
    each = λ p. rw highest-append (
        ground (
          arith,
          h.each p,
          h.each (place r).kafka_partition,
          lookup-insert p (place r).kafka_partition (place r).kafka_offset b.offsets,
        ));
  }

  pub new_batch-HasOffsets : (m s : ℕ) → HasOffsets (new_batch m s)
  unfolding highest
  new_batch-HasOffsets m s = record { each = λ p. unfold lookup in refl }

  pub clear-HasOffsets : (b : Batch Row) → HasOffsets (clear b)
  unfolding clear highest
  clear-HasOffsets b = record { each = λ p. unfold lookup in refl }

  -- The batch after rows were added, in order.
  unfoldable pub add_all : List Row → Batch Row → Batch Row
  add_all [] b = b
  add_all (r ∷ rs) b = add_all rs (add place r b)

  add_all-HasOffsets : (rs : List Row) (b : Batch Row) → HasOffsets b → HasOffsets (add_all rs b)
  unfolding add_all
  add_all-HasOffsets [] b h = h
  add_all-HasOffsets (r ∷ rs) b h = add_all-HasOffsets rs (add place r b) (add-HasOffsets r b h)

  rows-add_all : (rs : List Row) (b : Batch Row) → (add_all rs b).rows ≡ b.rows ++ rs
  unfolding add_all add
  rows-add_all [] b = sym (append-nil b.rows)
  rows-add_all (r ∷ rs) b = rows-add_all rs (add place r b) ∙ append_assoc b.rows (r ∷ []) rs

  -- A new batch to which rows are added in any order has just these rows, in that order, and for
  -- each partition the highest offset of its rows, and no entry for a partition without rows.
  pub add_all-highest :
      (max_rows max_seconds : ℕ) (rs : List Row) (p : ℕ)
      → ((add_all rs (new_batch max_rows max_seconds)).rows ≡ rs)
        × (lookup p (add_all rs (new_batch max_rows max_seconds)).offsets ≡ highest p rs)
  add_all-highest max_rows max_seconds rs p =
      let b : Batch Row = new_batch max_rows max_seconds in
      let rows = rows-add_all rs b in
      (
        rows,
        (add_all-HasOffsets rs b (new_batch-HasOffsets max_rows max_seconds)).each p
            ∙ ap (highest p) rows,
      )

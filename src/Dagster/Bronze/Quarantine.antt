-- ===== src/Dagster/Bronze/Quarantine.antt =====
-- What the commit past a record that does not decode does to the rows around it.
use bluesky_trends.Prelude.{
  ℕ, ◌+◌, ◌≤◌, ◌<◌, ◌≡◌, refl, true, false, some, List, [], ◌∷◌, ◌++◌, arith,
}
use bluesky_trends.Prelude.Dict.{lookup-insert, NodupKeys}
use bluesky_trends.Dagster.Decode.{Place, DlqRow}
use bluesky_trends.Dagster.Batch.{is_empty_list}
use bluesky_trends.Dagster.Batch.Offsets.{highest, HasOffsets}
use bluesky_trends.Dagster.Bronze.{Poll, Vertical, Archive, commit, flush, quarantine}
use bluesky_trends.Dagster.Bronze.Committed.{next, stands, lookup-commit}

-- A record that does not decode, where the DLQ takes it and the commit returns, commits past the
-- rows of its partition that wait in the batch at its offset or before it: while they are not
-- written, the group's next offset lies above them.
pub quarantine_commits_past_batch :
    {Row : Type 0} (v : Vertical Row) (x : Poll) (p : Place) (d : DlqRow) (s : Archive Row) (o : ℕ)
    → x.sends ≡ true
    → x.commits ≡ true
    → stands v.place p.kafka_partition o s.batch.rows ≡ true
    → o ≤ p.kafka_offset
    → let s' = (quarantine v x p d s).1 in
      (s'.table ≡ s.table)
      × (stands v.place p.kafka_partition o s'.batch.rows ≡ true)
      × (o < next p.kafka_partition s'.committed)
unfolding quarantine commit
quarantine_commits_past_batch v x p d s o sends commits waits le =
    ground
      (arith, lookup-insert p.kafka_partition p.kafka_partition (p.kafka_offset + 1) s.committed)

empty-highest :
    {Row : Type 0} (place : Row → Place) (p h : ℕ) (rows : List Row)
    → highest place p rows ≡ some h
    → is_empty_list rows ≡ false
unfolding highest
empty-highest place p h [] e = cc
empty-highest place p h (r ∷ rows) e = refl

-- The commit past a record that does not decode does not last. Let the rows of its partition that
-- wait in the batch, with the batch's offsets as its rows have them, stand before it, and let the
-- DLQ, Iceberg and the broker answer. Then the next flush moves the group back to the record or
-- before it, so that a later run reads it, and sends it to the DLQ, again.
pub flush_rereads_quarantined :
    {Row : Type 0} (v : Vertical Row) (x y : Poll) (p : Place) (d : DlqRow) (s : Archive Row)
    (h : ℕ)
    → x.sends ≡ true
    → x.commits ≡ true
    → y.appends ≡ true
    → y.commits ≡ true
    → NodupKeys s.batch.offsets
    → HasOffsets v.place s.batch
    → highest v.place p.kafka_partition s.batch.rows ≡ some h
    → h < p.kafka_offset
    → let s' = (flush y (quarantine v x p d s).1).1 in
      (next p.kafka_partition s'.committed ≤ p.kafka_offset)
      × (s'.dlq_sent ≡ s.dlq_sent ++ (d, v.topic) ∷ [])
unfolding quarantine flush
flush_rereads_quarantined v x y p d s h sends commits appends commits' distinct offsets top lt =
    ground (
      arith,
      empty-highest v.place p.kafka_partition h s.batch.rows top,
      offsets.each p.kafka_partition,
      lookup-commit p.kafka_partition s.batch.offsets
          (commit ((p.kafka_partition, p.kafka_offset) ∷ []) s.committed) distinct,
    )

-- ===== src/Dagster/Bronze.antt =====
-- dagster/bsky_dagster/assets/bronze.py, bronze_likes.py and bronze_follows.py: the archiver from
-- Kafka to Iceberg. The loop is the same for the three event types; what differs is the decoder
-- and the topic. A `Poll` is what one turn of the loop is given: the result of
-- `consumer.poll(1.0)`, one reading of each clock, the live assignment, and whether the calls of
-- Iceberg, of the broker and of the DLQ producer return in this turn or raise.
pub mod Count
pub mod Rows
pub mod Committed
pub mod Quarantine
pub mod Stops
pub mod Turns
pub mod NoLoss
use bluesky_trends.Prelude.{
  ℕ, ◌+◌, ◌-◌, String, Bool, true, false, not, ◌&&◌, ◌||◌, Option, none, some, List, [], ◌∷◌, ◌++◌,
  ltb, ◌==◌, if◌then◌else◌,
}
use bluesky_trends.Prelude.Dict.{Dict, insert}
use bluesky_trends.Json.{Fields}
use bluesky_trends.Dagster.Decode.{Place, Decoded, row, dlq, DlqRow}
use bluesky_trends.Dagster.Batch.{Batch, new_batch, add, len, is_empty, should_flush, clear}

pub data Polled : Type 0 where
  nothing : Polled
  -- `msg.error()` is not `None`: whether its code is `_PARTITION_EOF`, and `msg.partition()`.
  kafka_error : Bool → Option ℕ → Polled
  -- `msg.partition()`, `msg.offset()` and `msg.value()`.
  message : Option ℕ → Option ℕ → List ℕ → Polled

pub record Poll : Type 0 where
  pub polled : Polled
  pub now : ℕ
  pub wall : ℕ
  pub assignment : List ℕ
  pub appends : Bool
  pub commits : Bool
  pub sends : Bool

-- What the three assets fill in.
pub record Vertical (Row : Type 0) : Type 0 where
  pub topic : String
  -- the Avro deserializer, where `none` is an exception or `None`
  pub deserialize : List ℕ → Option Fields
  pub decode : Option Fields → Place → Decoded Row
  pub place : Row → Place

pub record Archive (Row : Type 0) : Type 0 where
  -- the rows of the Iceberg table and the committed offsets of the consumer group
  pub table : List Row
  pub committed : Dict ℕ
  -- what was sent to the DLQ, with the intended topic, oldest first
  pub dlq_sent : List (DlqRow × String)
  pub batch : Batch Row
  pub archived : ℕ
  pub dlq_count : ℕ
  pub last_flush : ℕ
  pub last_activity : ℕ
  pub eof_partitions : List ℕ

pub data Failure : Type 0 where
  consume_error append_error commit_error dlq_error : Failure

-- How a turn or the loop ended; `going` is no end.
pub data Status : Type 0 where
  going stopped : Status
  failed : Failure → Status

-- `_IDLE_STOP_SECONDS`
abbrev pub idle_stop_seconds : ℕ
idle_stop_seconds = 15000

-- `_commit`: the next offset to read in each partition.
unfoldable pub commit : Dict ℕ → Dict ℕ → Dict ℕ
commit [] committed = committed
commit ((p, o) ∷ offsets) committed = commit offsets (insert p (o + 1) committed)

unfoldable pub member : ℕ → List ℕ → Bool
member p [] = false
member p (q ∷ qs) = p == q || member p qs

unfoldable pub discard : ℕ → List ℕ → List ℕ
discard p [] = []
discard p (q ∷ qs) = let rest = discard p qs in if p == q then rest else q ∷ rest

-- `eof_partitions >= assignment`
unfoldable pub covers : List ℕ → List ℕ → Bool
unfolding member
covers eof [] = true
covers eof (p ∷ ps) = member p eof && covers eof ps

abbrev pub has_some : List ℕ → Bool
has_some [] = false
has_some (_ ∷ _) = true

unfoldable pub drained : List ℕ → List ℕ → Bool
unfolding covers
drained eof assignment = has_some assignment && covers eof assignment

module _ {Row : Type 0} where
  -- `flush`: write first, then commit.
  unfoldable pub flush : Poll → Archive Row → Status × Archive Row
  flush x s =
      if is_empty s.batch
      then (going, s)
      else if not x.appends
      then (failed append_error, s)
      else if not x.commits
      then (failed commit_error, record s { table = s.table ++ s.batch.rows })
      else (
        going,
        record s {
          table = s.table ++ s.batch.rows;
          committed = commit s.batch.offsets s.committed;
          archived = s.archived + len s.batch;
          batch = clear s.batch;
          last_flush = x.now;
        },
      )

  unfoldable pub flush_if_due : Poll → Archive Row → Status × Archive Row
  flush_if_due x s = if should_flush (x.now - s.last_flush) s.batch then flush x s else (going, s)

  abbrev pub stop_if_idle : Poll → Status × Archive Row → Status × Archive Row
  stop_if_idle x (going, s) =
      if is_empty s.batch
        && (drained s.eof_partitions x.assignment
            || ltb idle_stop_seconds (x.now - s.last_activity))
      then (stopped, s)
      else (going, s)
  stop_if_idle x (stopped, s) = (stopped, s)
  stop_if_idle x (failed f, s) = (failed f, s)

  module _ (v : Vertical Row) where
    -- A record that does not decode: to the DLQ, and commit past it.
    unfoldable pub quarantine : Poll → Place → DlqRow → Archive Row → Status × Archive Row
    quarantine x p d s =
        if not x.sends
        then (failed dlq_error, s)
        else let sent = record s {
          dlq_sent = s.dlq_sent ++ (d, v.topic) ∷ [];
          dlq_count = s.dlq_count + 1;
        } in
          if not x.commits then (failed commit_error, sent) else (
            going,
            record sent {
              committed = commit ((p.kafka_partition, p.kafka_offset) ∷ []) s.committed;
            },
          )

    unfoldable pub accept : Poll → Place → Decoded Row → Archive Row → Status × Archive Row
    accept x p (dlq d) s = quarantine x p d s
    accept x p (row r) s = flush_if_due x (record s { batch = add v.place r s.batch })

    abbrev pub place_at : Poll → ℕ → ℕ → Place
    place_at x p o = record { kafka_partition = p; kafka_offset = o; ingest_ts = x.wall }

    -- The body of the loop after the poll.
    unfoldable pub handle : Polled → Poll → Archive Row → Status × Archive Row
    handle nothing x s = stop_if_idle x (flush_if_due x s)
    handle (kafka_error true (some p)) x s =
        (going, record s { last_activity = x.now; eof_partitions = p ∷ s.eof_partitions })
    handle (kafka_error _ _) x s = (failed consume_error, record s { last_activity = x.now })
    handle (message (some p) (some o) value) x s =
        accept x (place_at x p o) (v.decode (v.deserialize value) (place_at x p o))
          (record s { last_activity = x.now; eof_partitions = discard p s.eof_partitions })
    handle (message _ _ value) x s = (going, record s { last_activity = x.now })

    unfoldable pub turn : Poll → Archive Row → Status × Archive Row
    unfolding handle
    turn x s = handle x.polled x s

    -- The `while`, as far as the polls go.
    unfoldable pub archive_loop : ℕ → List Poll → Archive Row → Status × Archive Row
    archive_loop max_rows [] s =
        (if ltb (s.archived + len s.batch) max_rows then going else stopped, s)
    archive_loop max_rows (x ∷ rest) s =
        if ltb (s.archived + len s.batch) max_rows
        then elim (turn x s).0 [
          | going ↦ archive_loop max_rows rest (turn x s).1
          | stopped ↦ (stopped, (turn x s).1)
          | failed f ↦ (failed f, (turn x s).1)
        ]
        else (stopped, s)

    abbrev pub flush_at_end : Poll → Status × Archive Row → Status × Archive Row
    flush_at_end last (going, s) = (going, s)
    flush_at_end last (stopped, s) =
        let (st, s') = flush last s in
        (elim st [ going ↦ stopped | stopped ↦ stopped | failed f ↦ failed f ], s')
    flush_at_end last (failed f, s) = (failed f, s)

    -- The loop and the flush after it, which runs with what `last` gives.
    unfoldable pub archive : ℕ → List Poll → Poll → Archive Row → Status × Archive Row
    archive max_rows polls last s = flush_at_end last (archive_loop max_rows polls s)

-- The state at the start of a run, over the table and the offsets of the group.
abbrev pub new_archive : {Row : Type 0} → ℕ → ℕ → ℕ → List Row → Dict ℕ → Archive Row
new_archive max_rows max_seconds now table committed = record {
  table = table;
  committed = committed;
  dlq_sent = [];
  batch = new_batch max_rows max_seconds;
  archived = 0;
  dlq_count = 0;
  last_flush = now;
  last_activity = now;
  eof_partitions = [];
}

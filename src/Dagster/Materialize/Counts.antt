-- ===== src/Dagster/Materialize/Counts.antt =====
-- The counts in the `MaterializeResult` of assets/bronze.py against the table and the DLQ.
use bluesky_trends.Prelude.{
  ℕ, ◌+◌, ◌≡◌, refl, true, false, none, some, List, [], ◌∷◌, arith, length, length-append,
}
use bluesky_trends.Dagster.Decode.{Place, Decoded, row, dlq, DlqRow}
use bluesky_trends.Dagster.Batch.{add}
use bluesky_trends.Dagster.Bronze.{
  Polled, nothing, kafka_error, message, Poll, Vertical, Archive, Status, going, stopped, failed,
  flush, flush_if_due, stop_if_idle, quarantine, accept, place_at, handle, turn, archive, discard,
}
use bluesky_trends.Dagster.Bronze.Rows.{is_failed}
use bluesky_trends.Dagster.Materialize.Rule.{archive_rule}

module _ {Row : Type 0} where
  -- The table has grown by the rows that are counted as archived, and the DLQ got as many records
  -- as are counted.
  abbrev pub Counted : ℕ → Archive Row → Type 0
  Counted base s = (length s.table ≡ base + s.archived) × (length s.dlq_sent ≡ s.dlq_count)

  flush-Counted :
      (base : ℕ) (x : Poll) (s : Archive Row)
      → is_failed (flush x s).0 ≡ false
      → Counted base s
      → Counted base (flush x s).1
  unfolding flush
  flush-Counted base x s e c = ground (arith, length-append {0} s.table s.batch.rows)

  flush_if_due-Counted :
      (base : ℕ) (x : Poll) (s : Archive Row)
      → is_failed (flush_if_due x s).0 ≡ false
      → Counted base s
      → Counted base (flush_if_due x s).1
  unfolding flush_if_due
  flush_if_due-Counted base x s e c = ground (arith, flush-Counted base x s)

  stop_if_idle-Counted :
      (base : ℕ) (x : Poll) (p : Status × Archive Row)
      → is_failed (stop_if_idle x p).0 ≡ false
      → (is_failed p.0 ≡ false → Counted base p.1)
      → Counted base (stop_if_idle x p).1
  stop_if_idle-Counted base x (going, s) e c = ground arith
  stop_if_idle-Counted base x (stopped, s) e c = c refl
  stop_if_idle-Counted base x (failed f, s) e c = cc

  module _ (v : Vertical Row) where
    quarantine-Counted :
        (base : ℕ) (x : Poll) (p : Place) (d : DlqRow) (s : Archive Row)
        → is_failed (quarantine v x p d s).0 ≡ false
        → Counted base s
        → Counted base (quarantine v x p d s).1
    unfolding quarantine
    quarantine-Counted base x p d s e c =
        ground (arith, length-append {0} s.dlq_sent ((d, v.topic) ∷ []))

    accept-Counted :
        (base : ℕ) (x : Poll) (p : Place) (d : Decoded Row) (s : Archive Row)
        → is_failed (accept v x p d s).0 ≡ false
        → Counted base s
        → Counted base (accept v x p d s).1
    unfolding accept add
    accept-Counted base x p (dlq d) s e c = quarantine-Counted base x p d s e c
    accept-Counted base x p (row r) s e c =
        flush_if_due-Counted base x (record s { batch = add v.place r s.batch }) e c

    handle-Counted :
        (base : ℕ) (m : Polled) (x : Poll) (s : Archive Row)
        → is_failed (handle v m x s).0 ≡ false
        → Counted base s
        → Counted base (handle v m x s).1
    unfolding handle
    handle-Counted base nothing x s e c =
        stop_if_idle-Counted base x (flush_if_due x s) e (λ f. flush_if_due-Counted base x s f c)
    handle-Counted base (kafka_error true (some p)) x s e c = c
    handle-Counted base (kafka_error false _) x s e c = cc
    handle-Counted base (kafka_error true none) x s e c = cc
    handle-Counted base (message (some p) (some o) value) x s e c =
        accept-Counted base x (place_at v x p o) (v.decode (v.deserialize value) (place_at v x p o))
          (record s { last_activity = x.now; eof_partitions = discard p s.eof_partitions }) e c
    handle-Counted base (message none _ value) x s e c = c
    handle-Counted base (message (some _) none value) x s e c = c

    turn-Counted :
        (base : ℕ) (x : Poll) (s : Archive Row)
        → is_failed (turn v x s).0 ≡ false
        → Counted base s
        → Counted base (turn v x s).1
    unfolding turn
    turn-Counted base x s e c = handle-Counted base x.polled x s e c

    pub archive-Counted :
        (base max_rows : ℕ) (polls : List Poll) (last : Poll) (s : Archive Row)
        → Counted base s
        → is_failed (archive v max_rows polls last s).0 ≡ false
        → Counted base (archive v max_rows polls last s).1
    archive-Counted base max_rows polls last s c =
        archive_rule v (Counted base) (turn-Counted base) (flush-Counted base) max_rows polls last s
          c

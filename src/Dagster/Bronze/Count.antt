-- ===== src/Dagster/Bronze/Count.antt =====
-- The rows of a run of the archiver in assets/bronze.py against `bronze_max_rows_per_run`.
use bluesky_trends.Prelude.{
  ℕ, ◌+◌, ◌≤◌, ◌≡◌, refl, true, false, none, some, List, [], ◌∷◌, arith, length-append,
}
use bluesky_trends.Dagster.Decode.{Place, Decoded, row, dlq}
use bluesky_trends.Dagster.Batch.{add, len, is_empty_list, clear}
use bluesky_trends.Dagster.Bronze.{
  Polled, nothing, kafka_error, message, Poll, Vertical, Archive, Status, going, stopped, failed,
  flush, discard, flush_if_due, stop_if_idle, quarantine, accept, place_at, handle, turn,
  archive_loop, archive, flush_at_end,
}

module _ {Row : Type 0} where
  -- The rows that count against `bronze_max_rows_per_run`.
  abbrev pub count : Archive Row → ℕ
  count s = s.archived + len s.batch

  length-is_empty : (l : List Row) → is_empty_list l ≡ true → l ≡ []
  length-is_empty [] e = refl
  length-is_empty (r ∷ l) e = cc

  count-flush : (x : Poll) (s : Archive Row) → count (flush x s).1 ≡ count s
  unfolding flush clear
  count-flush x s = ground arith

  count-flush_if_due : (x : Poll) (s : Archive Row) → count (flush_if_due x s).1 ≡ count s
  unfolding flush_if_due
  count-flush_if_due x s = ground (arith, count-flush x s)

  count-stop_if_idle :
      (x : Poll) (p : Status × Archive Row) → count (stop_if_idle x p).1 ≡ count p.1
  count-stop_if_idle x (going, s) = ground arith
  count-stop_if_idle x (stopped, s) = refl
  count-stop_if_idle x (failed f, s) = refl

  module _ (v : Vertical Row) where
    count-accept :
        (x : Poll) (p : Place) (d : Decoded Row) (s : Archive Row)
        → count (accept v x p d s).1 ≤ count s + 1
    unfolding accept quarantine add
    count-accept x p (dlq d) s = ground arith
    count-accept x p (row r) s =
        let s' : Archive Row = record s { batch = add v.place r s.batch } in
        omega (arith, count-flush_if_due x s', length-append {0} s.batch.rows (r ∷ []))

    count-handle :
        (m : Polled) (x : Poll) (s : Archive Row) → count (handle v m x s).1 ≤ count s + 1
    unfolding handle
    count-handle nothing x s =
        omega (arith, count-stop_if_idle x (flush_if_due x s), count-flush_if_due x s)
    count-handle (kafka_error true (some p)) x s = omega arith
    count-handle (kafka_error false _) x s = omega arith
    count-handle (kafka_error true none) x s = omega arith
    count-handle (message (some p) (some o) value) x s =
        count-accept x (place_at v x p o) (v.decode (v.deserialize value) (place_at v x p o))
          (record s { last_activity = x.now; eof_partitions = discard p s.eof_partitions })
    count-handle (message none _ value) x s = omega arith
    count-handle (message (some _) none value) x s = omega arith

    count-archive_loop :
        (max_rows : ℕ) (polls : List Poll) (s : Archive Row)
        → count s ≤ max_rows
        → count (archive_loop v max_rows polls s).1 ≤ max_rows
    unfolding archive_loop turn
    count-archive_loop max_rows [] s h = h
    count-archive_loop max_rows (x ∷ rest) s h = ground (
      arith,
      count-handle x.polled x s,
      count-archive_loop max_rows rest (handle v x.polled x s).1,
    )

    count-flush_at_end :
        (last : Poll) (p : Status × Archive Row) → count (flush_at_end v last p).1 ≡ count p.1
    count-flush_at_end last (going, s) = refl
    count-flush_at_end last (stopped, s) = count-flush last s
    count-flush_at_end last (failed f, s) = refl

    -- If the rows that are archived and held number at most `max_rows` when a run begins, they do
    -- so when it ends, however it ends.
    pub count-archive :
        (max_rows : ℕ) (polls : List Poll) (last : Poll) (s : Archive Row)
        → count s ≤ max_rows
        → count (archive v max_rows polls last s).1 ≤ max_rows
    unfolding archive
    count-archive max_rows polls last s h = omega (
      arith,
      count-flush_at_end last (archive_loop v max_rows polls s),
      count-archive_loop max_rows polls s h,
    )

-- ===== src/Dagster/Bronze/Turns.antt =====
-- One turn of the archiver in assets/bronze.py when the record that it reads decodes.
use bluesky_trends.Prelude.{
  ℕ, ◌≤◌, ◌≡◌, refl, Bool, true, false, ◌||◌, Option, none, some, List, [], ◌∷◌, arith,
}
use bluesky_trends.Json.{Fields}
use bluesky_trends.Dagster.Decode.{Place, Decoded, row, dlq}
use bluesky_trends.Dagster.Batch.{add}
use bluesky_trends.Dagster.Bronze.{
  Polled, nothing, kafka_error, message, Poll, Vertical, Archive, Status, going, stopped, failed,
  flush_if_due, stop_if_idle, discard, accept, place_at, handle,
}
use bluesky_trends.Dagster.Bronze.Rows.{rows_of}
use bluesky_trends.Dagster.Bronze.Committed.{
  stands, stands-append, Safe, flush_if_due-Safe, read_to, add-Safe, is_held, flush_if_due-is_held,
}

-- The decoder puts a row where its record stands.
abbrev pub Places : {Row : Type 0} → Vertical Row → Type 0
Places {Row} v = (d : Option Fields) (p : Place) (r : Row) → v.decode d p ≡ row r → v.place r ≡ p

module _ {Row : Type 0} (v : Vertical Row) where
  abbrev pub is_row : Decoded Row → Bool
  is_row (row _) = true
  is_row (dlq _) = false

  -- What the turn read of a record, and the read position after it.
  abbrev pub Reads : (ℕ → ℕ) → Polled → Poll → Type 0
  Reads floor (message (some p) (some o) value) x =
      (floor p ≤ o) × (is_row (v.decode (v.deserialize value) (place_at v x p o)) ≡ true)
  Reads floor _ x = Unit

  abbrev pub position : (ℕ → ℕ) → Polled → ℕ → ℕ
  position floor (message (some p) (some o) value) = read_to v.place p o floor
  position floor _ = floor

  -- Every record that is polled decodes, and in each partition the offsets increase from the
  -- read position on.
  abbrev pub Readable : (ℕ → ℕ) → List Poll → Type 0
  Readable floor [] = Unit
  Readable floor (x ∷ rest) = Reads floor x.polled x × Readable (position floor x.polled) rest

  stop_if_idle-state : (x : Poll) (p : Status × Archive Row) → (stop_if_idle x p).1 ≡ p.1
  stop_if_idle-state x (going, s) = ground arith
  stop_if_idle-state x (stopped, s) = refl
  stop_if_idle-state x (failed f, s) = refl

  -- What a turn from `s` to `s'` keeps.
  pub record Turned (floor : ℕ → ℕ) (rs : List Row) (s s' : Archive Row) : Type 0 where
    pub safe : Safe v.place floor s'
    pub held :
        (p o : ℕ)
        → (is_held v.place p o s || stands v.place p o rs) ≡ true
        → is_held v.place p o s' ≡ true

  abbrev seen : ℕ → List ℕ → Archive Row → Archive Row
  seen now eofs s = record s { last_activity = now; eof_partitions = eofs }

  seen-Safe :
      (floor : ℕ → ℕ) (now : ℕ) (eofs : List ℕ) (s : Archive Row)
      → Safe v.place floor s
      → Safe v.place floor (seen now eofs s)
  seen-Safe floor now eofs s h = record {
    distinct = h.distinct;
    offsets = h.offsets;
    read = h.read;
    waiting = h.waiting;
    behind = h.behind;
  }

  seen-Turned :
      (floor : ℕ → ℕ) (now : ℕ) (eofs : List ℕ) (s : Archive Row)
      → Safe v.place floor s
      → Turned floor [] s (seen now eofs s)
  unfolding stands
  seen-Turned floor now eofs s h = record {
    safe = seen-Safe floor now eofs s h;
    held = λ p o e. ground arith;
  }

  accept-Turned :
      (floor : ℕ → ℕ) (x : Poll) (p : Place) (r : Row) (s : Archive Row)
      → floor (v.place r).kafka_partition ≤ (v.place r).kafka_offset
      → Safe v.place floor s
      → Turned
          (read_to v.place (v.place r).kafka_partition (v.place r).kafka_offset floor)
          (r ∷ [])
          s
          (accept v x p (row r) s).1
  unfolding accept stands
  accept-Turned floor x p r s le h =
      let s' : Archive Row = record s { batch = add v.place r s.batch } in
      record {
        safe = flush_if_due-Safe v.place _ x s' (add-Safe v.place floor r s le h);
        held = λ a b e.
            flush_if_due-is_held v.place x s' a b
              (unfold add in ground (arith, stands-append v.place a b s.batch.rows (r ∷ [])));
      }

  pub row-cases : (d : Decoded Row) → is_row d ≡ true → (r : Row) × (d ≡ row r)
  row-cases (row r) e = (r, refl)
  row-cases (dlq d) e = cc

  pub handle-Turned :
      (placed : Places v) (floor : ℕ → ℕ) (m : Polled) (x : Poll) (s : Archive Row)
      → Reads floor m x
      → Safe v.place floor s
      → Turned (position floor m) (rows_of v m x) s (handle v m x s).1
  unfolding handle rows_of stands
  handle-Turned placed floor nothing x s k h =
      rw (stop_if_idle-state x (flush_if_due x s)) (record {
        safe = flush_if_due-Safe v.place floor x s h;
        held = λ p o e. flush_if_due-is_held v.place x s p o (ground arith);
      })
  handle-Turned placed floor (kafka_error true (some p)) x s k h =
      seen-Turned floor x.now (p ∷ s.eof_partitions) s h
  handle-Turned placed floor (kafka_error false _) x s k h =
      seen-Turned floor x.now s.eof_partitions s h
  handle-Turned placed floor (kafka_error true none) x s k h =
      seen-Turned floor x.now s.eof_partitions s h
  handle-Turned placed floor (message none _ value) x s k h =
      seen-Turned floor x.now s.eof_partitions s h
  handle-Turned placed floor (message (some _) none value) x s k h =
      seen-Turned floor x.now s.eof_partitions s h
  handle-Turned placed floor (message (some p) (some o) value) x s k h =
      let pl = place_at v x p o in
      let s' = seen x.now (discard p s.eof_partitions) s in
      let (r, e) = row-cases (v.decode (v.deserialize value) pl) k.1 in
      let at = placed (v.deserialize value) pl r e in
      let t =
        accept-Turned floor x pl r s' (rw at k.0)
          (seen-Safe floor x.now (discard p s.eof_partitions) s h) in
      let t' : Turned (read_to v.place p o floor) (r ∷ []) s' (accept v x pl (row r) s').1 =
        rw at at t in
      rw e (record { safe = t'.safe; held = t'.held })

-- ===== src/Dagster/Bronze/NoLoss.antt =====
-- The records that a run of the archiver in assets/bronze.py polls, against table and commits.
use bluesky_trends.Prelude.{
  ℕ, ◌+◌, ◌≤◌, ◌≡◌, Bool, true, false, ◌||◌, none, some, List, [], ◌∷◌, arith, ltb, ◌⊎◌, inl, inr,
  Bool-cases, if◌then◌else◌,
}
use bluesky_trends.Dagster.Batch.{len}
use bluesky_trends.Dagster.Bronze.{
  Polled, nothing, kafka_error, message, Poll, Vertical, Archive, Status, going, stopped, failed,
  place_at, handle, turn, archive_loop, flush_at_end, archive,
}
use bluesky_trends.Dagster.Bronze.Turns.{
  Places, Reads, position, Readable, Turned, row-cases, handle-Turned,
}
use bluesky_trends.Dagster.Bronze.Rows.{rows_of, all_rows}
use bluesky_trends.Dagster.Bronze.Committed.{
  next, stands, stands-append, Safe, flush-Safe, is_held, flush-is_held,
}

module _ {Row : Type 0} (v : Vertical Row) (placed : Places v) where
  position-after :
      (floor : ℕ → ℕ) (m : Polled) (x : Poll) (p : ℕ)
      → Reads v floor m x
      → floor p ≤ position v floor m p
  position-after floor nothing x p k = omega arith
  position-after floor (kafka_error _ _) x p k = omega arith
  position-after floor (message none _ value) x p k = omega arith
  position-after floor (message (some _) none value) x p k = omega arith
  position-after floor (message (some q) (some o) value) x p k = ground (arith, k.0)

  rows_of-after :
      (floor : ℕ → ℕ) (m : Polled) (x : Poll) (p o : ℕ)
      → Reads v floor m x
      → stands v.place p o (rows_of v m x) ≡ true
      → floor p ≤ o
  unfolding rows_of stands
  rows_of-after floor nothing x p o k e = absurd (cc)
  rows_of-after floor (kafka_error _ _) x p o k e = absurd (cc)
  rows_of-after floor (message none _ value) x p o k e = absurd (cc)
  rows_of-after floor (message (some _) none value) x p o k e = absurd (cc)
  rows_of-after floor (message (some q) (some n) value) x p o k e =
      let (r, is) = row-cases v (v.decode (v.deserialize value) (place_at v x q n)) k.1 in
      let at = placed (v.deserialize value) (place_at v x q n) r is in
      let e' = rw (is, at) at e in ground (arith, k.0)

  -- What is left unread lies at the read position or after it.
  rows-after :
      (floor : ℕ → ℕ) (polls : List Poll) (p o : ℕ)
      → Readable v floor polls
      → stands v.place p o (all_rows v polls) ≡ true
      → floor p ≤ o
  unfolding all_rows stands
  rows-after floor [] p o k e = absurd (cc)
  rows-after floor (x ∷ rest) p o k e = ground (
    arith,
    stands-append v.place p o (rows_of v x.polled x) (all_rows v rest),
    rows_of-after floor x.polled x p o k.0,
    position-after floor x.polled x p k.0,
    rows-after (position v floor x.polled) rest p o k.1,
  )

  -- Where the loop ends, each record is held or lies after what was read.
  record Ended (rs : List Row) (s s' : Archive Row) : Type 0 where
    floor : ℕ → ℕ
    safe : Safe v.place floor s'
    found :
        (p o : ℕ)
        → (is_held v.place p o s || stands v.place p o rs) ≡ true
        → (is_held v.place p o s' ≡ true) ⊎ (floor p ≤ o)

  ends_here :
      (floor : ℕ → ℕ) (polls : List Poll) (s : Archive Row)
      → Readable v floor polls
      → Safe v.place floor s
      → Ended (all_rows v polls) s s
  ends_here floor polls s k h = record {
    floor = floor;
    safe = h;
    found = λ p o e. elim (Bool-cases (is_held v.place p o s)) [
      | inl held ↦ inl held
      | inr rest ↦ inr (rows-after floor polls p o k (ground arith))
    ];
  }

  ends_later :
      (floor : ℕ → ℕ) (x : Poll) (rest : List Poll) (s s' s'' : Archive Row)
      → Turned v floor (rows_of v x.polled x) s s'
      → Ended (all_rows v rest) s' s''
      → Ended (all_rows v (x ∷ rest)) s s''
  unfolding all_rows
  ends_later floor x rest s s' s'' t l = record {
    floor = l.floor;
    safe = l.safe;
    found = λ p o e. l.found p o (
        ground
          (arith, stands-append v.place p o (rows_of v x.polled x) (all_rows v rest), t.held p o));
  }

  if-Ended :
      (rs : List Row) (s : Archive Row) (b : Bool) (p q : Status × Archive Row)
      → Ended rs s p.1
      → Ended rs s q.1
      → Ended rs s (if b then p else q).1
  if-Ended rs s true p q x y = x
  if-Ended rs s false p q x y = y

  after_turn :
      (floor : ℕ → ℕ) (x : Poll) (rest : List Poll) (s : Archive Row)
      (t later : Status × Archive Row)
      → Turned v floor (rows_of v x.polled x) s t.1
      → Readable v floor rest
      → Ended (all_rows v rest) t.1 later.1
      → Ended
          (all_rows v (x ∷ rest))
          s
          (elim t.0 as (λ _. Status × Archive Row) [
            | going ↦ later
            | stopped ↦ (stopped, t.1)
            | failed f ↦ (failed f, t.1)
          ]).1
  after_turn floor x rest s (going, s') later t k l = ends_later floor x rest s s' later.1 t l
  after_turn floor x rest s (stopped, s') later t k l =
      ends_later floor x rest s s' s' t (ends_here floor rest s' k t.safe)
  after_turn floor x rest s (failed f, s') later t k l =
      ends_later floor x rest s s' s' t (ends_here floor rest s' k t.safe)

  archive_loop-Ended :
      (max_rows : ℕ) (floor : ℕ → ℕ) (polls : List Poll) (s : Archive Row)
      → Readable v floor polls
      → Safe v.place floor s
      → Ended (all_rows v polls) s (archive_loop v max_rows polls s).1
  unfolding archive_loop turn
  archive_loop-Ended max_rows floor [] s k h = ends_here floor [] s k h
  archive_loop-Ended max_rows floor (x ∷ rest) s k h =
      let t = handle v x.polled x s in
      let turned = handle-Turned v placed floor x.polled x s k.0 h in
      if-Ended (all_rows v (x ∷ rest)) s (ltb (s.archived + len s.batch) max_rows) _ (stopped, s)
        (after_turn (position v floor x.polled) x rest s t (archive_loop v max_rows rest t.1) turned
          k.1 (archive_loop-Ended max_rows (position v floor x.polled) rest t.1 k.1 turned.safe))
        (ends_here floor (x ∷ rest) s k h)

  flush_at_end-Ended :
      (rs : List Row) (last : Poll) (s : Archive Row) (p : Status × Archive Row)
      → Ended rs s p.1
      → Ended rs s (flush_at_end v last p).1
  flush_at_end-Ended rs last s (going, s') e = e
  flush_at_end-Ended rs last s (stopped, s') e = record {
    floor = e.floor;
    safe = flush-Safe v.place e.floor last s' e.safe;
    found = λ p o i. elim (e.found p o i) [
      | inl held ↦ inl (flush-is_held v.place last s' p o held)
      | inr after ↦ inr after
    ];
  }
  flush_at_end-Ended rs last s (failed f, s') e = e

  Ended-kept :
      (rs : List Row) (s s' : Archive Row) (p o : ℕ)
      → Ended rs s s'
      → stands v.place p o rs ≡ true
      → (stands v.place p o s'.table ≡ true) ⊎ (next p s'.committed ≤ o)
  Ended-kept rs s s' p o e i = elim (e.found p o (ground arith)) [
    | inr after ↦ inr (omega (arith, after, e.safe.read p))
    | inl held ↦ elim (Bool-cases (stands v.place p o s'.table)) [
      | inl written ↦ inl written
      | inr waits ↦ inr (e.safe.waiting p o (ground arith))
    ]
  ]

-- The archiver loses no record. Let the run begin with a batch that has read nothing past the
-- committed offsets, let the decoder put each row where its record stands, let every record that is
-- polled decode, and let the offsets of each partition increase from the committed one on. Then,
-- however the run ends, by an error of Iceberg or of the broker too, each record has its row in the
-- table, or lies at the committed offset of its partition or after it, from which the next run
-- reads it again.
pub archive_no_loss :
    {Row : Type 0} (v : Vertical Row) (placed : Places v) (max_rows : ℕ) (polls : List Poll)
    (last : Poll) (s : Archive Row) (p o : ℕ)
    → Safe v.place (λ q. next q s.committed) s
    → Readable v (λ q. next q s.committed) polls
    → stands v.place p o (all_rows v polls) ≡ true
    → let s' = (archive v max_rows polls last s).1 in
      (stands v.place p o s'.table ≡ true) ⊎ (next p s'.committed ≤ o)
unfolding archive
archive_no_loss v placed max_rows polls last s p o h k e =
    Ended-kept v placed (all_rows v polls) s _ p o
      (flush_at_end-Ended v placed (all_rows v polls) last s (archive_loop v max_rows polls s)
        (archive_loop-Ended v placed max_rows (λ q. next q s.committed) polls s k h))
      e

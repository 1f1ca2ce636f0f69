-- ===== src/Dagster/Bronze/Committed.antt =====
-- The offsets that the archiver commits, against the rows of its batch.
use bluesky_trends.Prelude.{
  ℕ, ◌+◌, ◌≤◌, ◌<◌, ◌≡◌, refl, Bool, true, false, not, ◌&&◌, ◌||◌, Option, none, some, List, [],
  ◌∷◌, ◌++◌, arith, ◌==◌, Option-cases, inl, inr, if◌then◌else◌,
}
use bluesky_trends.Prelude.Dict.{Dict, lookup, insert, lookup-insert, NodupKeys, insert-NodupKeys}
use bluesky_trends.Dagster.Decode.{Place}
use bluesky_trends.Dagster.Batch.{add, raise_offset, is_empty, clear}
use bluesky_trends.Dagster.Batch.Offsets.{highest, HasOffsets, add-HasOffsets, clear-HasOffsets}
use bluesky_trends.Dagster.Bronze.{Poll, Archive, Status, commit, flush, flush_if_due}

abbrev pub or_first : Option ℕ → ℕ
or_first none = 0
or_first (some o) = o

-- The offset at which the group reads on in a partition.
abbrev pub next : ℕ → Dict ℕ → ℕ
next p committed = or_first (lookup p committed)

abbrev committed_to : Option ℕ → Option ℕ → Option ℕ
committed_to (some o) c = some (o + 1)
committed_to none c = c

-- A commit moves exactly the partitions that it names.
pub lookup-commit :
    (p : ℕ) (offsets committed : Dict ℕ)
    → NodupKeys offsets
    → lookup p (commit offsets committed) ≡ committed_to (lookup p offsets) (lookup p committed)
unfolding commit lookup
lookup-commit p [] committed h = refl
lookup-commit p ((q, o) ∷ offsets) committed h = ground (
  arith,
  lookup-commit p offsets (insert q (o + 1) committed) h.1,
  lookup-insert p q (o + 1) committed,
)

module _ {Row : Type 0} (place : Row → Place) where
  -- A row of the record at this partition and offset is in the list.
  unfoldable pub stands : ℕ → ℕ → List Row → Bool
  stands p o [] = false
  stands p o (r ∷ rs) =
      (p == (place r).kafka_partition && o == (place r).kafka_offset) || stands p o rs

  pub stands-append :
      (p o : ℕ) (rs qs : List Row) → stands p o (rs ++ qs) ≡ (stands p o rs || stands p o qs)
  unfolding stands
  stands-append p o [] qs = refl
  stands-append p o (r ∷ rs) qs = ground (arith, stands-append p o rs qs)

  stands-highest : (p o : ℕ) (rs : List Row) → highest place p rs ≡ some o → stands p o rs ≡ true
  unfolding stands highest
  stands-highest p o [] e = cc
  stands-highest p o (r ∷ rs) e = elim (Option-cases (highest place p rs)) [
    | inl nothing ↦ ground arith
    | inr (q, top) ↦ ground (arith, stands-highest p q rs top)
  ]

  -- The consumer has read each partition up to `floor`: the group has not committed past what was
  -- read, and the rows of the batch have been read but lie at the committed offset or after it.
  pub record Safe (floor : ℕ → ℕ) (s : Archive Row) : Type 0 where
    pub distinct : NodupKeys s.batch.offsets
    pub offsets : HasOffsets place s.batch
    pub read : (p : ℕ) → next p s.committed ≤ floor p
    pub waiting : (p o : ℕ) → stands p o s.batch.rows ≡ true → next p s.committed ≤ o
    pub behind : (p o : ℕ) → stands p o s.batch.rows ≡ true → o < floor p

  commit-read :
      (floor : ℕ → ℕ) (s : Archive Row) (p : ℕ)
      → Safe floor s
      → next p (commit s.batch.offsets s.committed) ≤ floor p
  commit-read floor s p h = elim (Option-cases (highest place p s.batch.rows)) [
    | inl nothing ↦
        ground (
          arith,
          lookup-commit p s.batch.offsets s.committed h.distinct,
          h.offsets.each p,
          h.read p,
        )
    | inr (o, top) ↦ ground (
      arith,
      lookup-commit p s.batch.offsets s.committed h.distinct,
      h.offsets.each p,
      h.behind p o (stands-highest p o s.batch.rows top),
    )
  ]

  if-Safe :
      (floor : ℕ → ℕ) (b : Bool) (p q : Status × Archive Row)
      → Safe floor p.1
      → Safe floor q.1
      → Safe floor (if b then p else q).1
  if-Safe floor true p q x y = x
  if-Safe floor false p q x y = y

  pub flush-Safe :
      (floor : ℕ → ℕ) (x : Poll) (s : Archive Row) → Safe floor s → Safe floor (flush x s).1
  unfolding flush clear stands
  flush-Safe floor x s h = if-Safe floor (is_empty s.batch) _ _ h (
      if-Safe floor (not x.appends) _ _ h (
        if-Safe floor (not x.commits) _ _
          (record {
            distinct = h.distinct;
            offsets = h.offsets;
            read = h.read;
            waiting = h.waiting;
            behind = h.behind;
          })
          (record {
            distinct = tt;
            offsets = clear-HasOffsets place s.batch;
            read = λ p. commit-read floor s p h;
            waiting = λ p o e. absurd (cc);
            behind = λ p o e. absurd (cc);
          })))

  pub flush_if_due-Safe :
      (floor : ℕ → ℕ) (x : Poll) (s : Archive Row) → Safe floor s → Safe floor (flush_if_due x s).1
  unfolding flush_if_due
  flush_if_due-Safe floor x s h = if-Safe floor _ _ _ (flush-Safe floor x s h) h

  -- The read position after a record at an offset of a partition.
  abbrev pub read_to : ℕ → ℕ → (ℕ → ℕ) → ℕ → ℕ
  read_to p o floor q = if q == p then o + 1 else floor q

  pub add-Safe :
      (floor : ℕ → ℕ) (r : Row) (s : Archive Row)
      → floor (place r).kafka_partition ≤ (place r).kafka_offset
      → Safe floor s
      → Safe
          (read_to (place r).kafka_partition (place r).kafka_offset floor)
          (record s { batch = add place r s.batch })
  unfolding add raise_offset stands
  add-Safe floor r s le h = record {
    distinct = ground (
      arith,
      h.distinct,
      insert-NodupKeys (place r).kafka_partition (place r).kafka_offset s.batch.offsets h.distinct,
    );
    offsets = add-HasOffsets place r s.batch h.offsets;
    read = λ p. ground (arith, h.read p);
    waiting =
        λ p o e. ground (arith, stands-append p o s.batch.rows (r ∷ []), h.waiting p o, h.read p);
    behind = λ p o e. ground (arith, stands-append p o s.batch.rows (r ∷ []), h.behind p o);
  }

  -- A row that is written, or waits in the batch.
  abbrev pub is_held : ℕ → ℕ → Archive Row → Bool
  is_held p o s = stands p o s.table || stands p o s.batch.rows

  pub flush-is_held :
      (x : Poll) (s : Archive Row) (p o : ℕ)
      → is_held p o s ≡ true
      → is_held p o (flush x s).1 ≡ true
  unfolding flush clear stands
  flush-is_held x s p o e = ground (arith, stands-append p o s.table s.batch.rows)

  pub flush_if_due-is_held :
      (x : Poll) (s : Archive Row) (p o : ℕ)
      → is_held p o s ≡ true
      → is_held p o (flush_if_due x s).1 ≡ true
  unfolding flush_if_due
  flush_if_due-is_held x s p o e = ground (arith, flush-is_held x s p o e)

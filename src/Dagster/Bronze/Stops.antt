-- ===== src/Dagster/Bronze/Stops.antt =====
-- How a run of the archiver in assets/bronze.py ends once its topic is drained.
use bluesky_trends.Prelude.{
  ◌⊎◌, inl, inr, Bool-cases, none, false, leb, ltb, ℕ, ◌-◌, ◌≡◌, refl, Bool, true, ◌&&◌, ◌||◌, some,
  List, [], ◌∷◌, ◌++◌, arith,
}
use bluesky_trends.Dagster.Batch.{is_empty, should_flush, clear}
use bluesky_trends.Dagster.Bronze.{
  Polled, message, stop_if_idle, idle_stop_seconds, nothing, kafka_error, Poll, Vertical, Archive,
  Status, going, stopped, failed, member, covers, has_some, drained, flush, flush_if_due, handle,
  turn, archive_loop, flush_at_end, archive,
}

-- A poll that brings nothing or the end of a partition, while Iceberg and the broker answer.
abbrev pub is_quiet : Polled → Bool
is_quiet nothing = true
is_quiet (kafka_error true (some _)) = true
is_quiet _ = false

unfoldable pub all_quiet : List Poll → Bool
all_quiet [] = true
all_quiet (y ∷ ys) = (is_quiet y.polled && (y.appends && y.commits)) && all_quiet ys

abbrev pub at_end : Polled → List ℕ → List ℕ
at_end (kafka_error true (some p)) ps = p ∷ ps
at_end _ ps = ps

-- The partitions whose end the polls report.
unfoldable pub reported : List Poll → List ℕ
reported [] = []
reported (y ∷ ys) = at_end y.polled (reported ys)

member-covers : (q : ℕ) (eof ps : List ℕ) → covers eof ps ≡ true → covers (q ∷ eof) ps ≡ true
unfolding covers member
member-covers q eof [] e = refl
member-covers q eof (p ∷ ps) e = ground (arith, member-covers q eof ps)

-- The partitions are among those that are at their end or are still to be reported.
unfoldable pub covered : List ℕ → List ℕ → List ℕ → Bool
covered eof qs [] = true
covered eof qs (p ∷ ps) = (member p eof || member p qs) && covered eof qs ps

covered-next :
    (q : ℕ) (eof qs ps : List ℕ) → covered eof (q ∷ qs) ps ≡ true → covered (q ∷ eof) qs ps ≡ true
unfolding covered member
covered-next q eof qs [] e = refl
covered-next q eof qs (p ∷ ps) e = ground (arith, covered-next q eof qs ps)

covered-end : (eof ps : List ℕ) → covered eof [] ps ≡ true → covers eof ps ≡ true
unfolding covered covers member
covered-end eof [] e = refl
covered-end eof (p ∷ ps) e = ground (arith, covered-end eof ps)

module _ {Row : Type 0} (v : Vertical Row) where
  -- Nothing was polled, Iceberg and the broker answer, and the batch of the state is empty, or
  -- `max_seconds` have passed since its last flush.
  pub record Due (x : Poll) (s : Archive Row) : Type 0 where
    pub nothing_left : x.polled ≡ nothing
    pub assigned : has_some x.assignment ≡ true
    pub appends : x.appends ≡ true
    pub commits : x.commits ≡ true
    pub elapsed : (is_empty s.batch || leb s.batch.max_seconds (x.now - s.last_flush)) ≡ true

  turn_stops :
      (x : Poll) (s : Archive Row)
      → Due x s
      → covers s.eof_partitions x.assignment ≡ true
      → (turn v x s).0 ≡ stopped
  unfolding turn handle flush_if_due should_flush flush drained clear
  turn_stops x s d c =
      rw (d.nothing_left) (ground (arith, d.assigned, d.appends, d.commits, d.elapsed))

  -- The turn goes on or stops, and what was due stays due.
  abbrev Idles : Poll → Archive Row → Status × Archive Row → Type 0
  Idles x s (st, s') =
      ((st ≡ going) ⊎ (st ≡ stopped)) × Due x s' × (s'.eof_partitions ≡ s.eof_partitions)

  stop_if_idle-Idles :
      (x y : Poll) (s : Archive Row) (p : Status × Archive Row)
      → p.0 ≡ going
      → Due x p.1
      → p.1.eof_partitions ≡ s.eof_partitions
      → Idles x s (stop_if_idle y p)
  stop_if_idle-Idles x y s (stopped, s') g d e = absurd (cc)
  stop_if_idle-Idles x y s (failed f, s') g d e = absurd (cc)
  stop_if_idle-Idles x y s (going, s') g d e =
      elim (Bool-cases (
        is_empty s'.batch
        && (drained s'.eof_partitions y.assignment
            || ltb idle_stop_seconds (y.now - s'.last_activity)))) [
              | inl ends ↦ rw ends (inr refl, d, e)
              | inr goes ↦ rw goes (inl refl, d, e)
            ]

  flush_if_due-quiet :
      (x y : Poll) (s : Archive Row)
      → Due x s
      → y.appends ≡ true
      → y.commits ≡ true
      → let (st, s') = flush_if_due y s in
        (st ≡ going)
        × ((is_empty s'.batch || leb s'.batch.max_seconds (x.now - s'.last_flush)) ≡ true)
        × (s'.eof_partitions ≡ s.eof_partitions)
  unfolding flush_if_due flush clear
  flush_if_due-quiet x y s d a c =
      (ground (arith, a, c), ground (arith, a, c, d.elapsed), ground (arith, a, c))

  idle-Idles :
      (x y : Poll) (s : Archive Row)
      → Due x s
      → y.appends ≡ true
      → y.commits ≡ true
      → Idles x s (handle v nothing y s)
  unfolding handle
  idle-Idles x y s d a c =
      let (goes, elapsed, same) = flush_if_due-quiet x y s d a c in
      stop_if_idle-Idles x y s (flush_if_due y s) goes
        (record {
          nothing_left = d.nothing_left;
          assigned = d.assigned;
          appends = d.appends;
          commits = d.commits;
          elapsed = elapsed;
        })
        same

  -- What is left to show of a run whose polls are these.
  abbrev Stops : ℕ → List Poll → Archive Row → Type 0
  Stops max_rows polls s = (archive_loop v max_rows polls s).0 ≡ stopped

  ends-Stops :
      (max_rows : ℕ) (y : Poll) (rest : List Poll) (s : Archive Row)
      → (turn v y s).0 ≡ stopped
      → Stops max_rows (y ∷ rest) s
  unfolding archive_loop
  ends-Stops max_rows y rest s ends = ground (arith, ends)

  next-Stops :
      (max_rows : ℕ) (y : Poll) (rest : List Poll) (s : Archive Row)
      → ((turn v y s).0 ≡ going) ⊎ ((turn v y s).0 ≡ stopped)
      → Stops max_rows rest (turn v y s).1
      → Stops max_rows (y ∷ rest) s
  unfolding archive_loop
  next-Stops max_rows y rest s (inl goes) later = ground (arith, goes, later)
  next-Stops max_rows y rest s (inr ends) later = ends-Stops max_rows y rest s ends

  -- A quiet poll, after which the next ones report what is left to report.
  quiet_turn :
      (x : Poll) (m : Polled) (y : Poll) (s : Archive Row) (ps : List ℕ)
      → is_quiet m ≡ true
      → y.appends ≡ true
      → y.commits ≡ true
      → Due x s
      → covered s.eof_partitions (at_end m ps) x.assignment ≡ true
      → let (st, s') = handle v m y s in
        ((st ≡ going) ⊎ (st ≡ stopped))
        × Due x s'
        × (covered s'.eof_partitions ps x.assignment ≡ true)
  quiet_turn x nothing y s ps q a c d cov =
      let (ends, d', same) = idle-Idles x y s d a c in (ends, d', rw same cov)
  quiet_turn x (message _ _ _) y s ps q a c d cov = absurd (cc)
  quiet_turn x (kafka_error false _) y s ps q a c d cov = absurd (cc)
  quiet_turn x (kafka_error true none) y s ps q a c d cov = absurd (cc)
  quiet_turn x (kafka_error true (some p)) y s ps q a c d cov =
      unfold handle in
      (
        inl refl,
        record {
          nothing_left = d.nothing_left;
          assigned = d.assigned;
          appends = d.appends;
          commits = d.commits;
          elapsed = d.elapsed;
        },
        covered-next p s.eof_partitions ps x.assignment cov,
      )

  archive_loop-Stops :
      (max_rows : ℕ) (ys : List Poll) (x : Poll) (rest : List Poll) (s : Archive Row)
      → all_quiet ys ≡ true
      → Due x s
      → covered s.eof_partitions (reported ys) x.assignment ≡ true
      → Stops max_rows (ys ++ x ∷ rest) s
  unfolding reported all_quiet turn
  archive_loop-Stops max_rows [] x rest s q d c =
      ends-Stops max_rows x rest s (turn_stops x s d (covered-end s.eof_partitions x.assignment c))
  archive_loop-Stops max_rows (y ∷ ys) x rest s q d c =
      let (ends, d', c') =
        quiet_turn x y.polled y s (reported ys) (ground arith) (ground arith) (ground arith) d c in
      next-Stops max_rows y (ys ++ x ∷ rest) s ends
        (archive_loop-Stops max_rows ys x rest (turn v y s).1 (ground arith) d' c')

  flush_at_end_stops :
      (last : Poll) (p : Status × Archive Row)
      → last.appends ≡ true
      → last.commits ≡ true
      → p.0 ≡ stopped
      → ((flush_at_end v last p).0 ≡ stopped) × (is_empty (flush_at_end v last p).1.batch ≡ true)
  unfolding flush clear
  flush_at_end_stops last (going, s) a c e = absurd (cc)
  flush_at_end_stops last (failed f, s) a c e = absurd (cc)
  flush_at_end_stops last (stopped, s) a c e = ground arith

  -- A run ends once its topic is drained. From any state of the run, let polls follow that bring
  -- nothing or the end of a partition, at any times, and then one that brings nothing. Let
  -- partitions be assigned at this one, each of them at its end in the state or reported by the
  -- polls before, and let the batch of the state be empty or due at it. Let Iceberg and the broker
  -- answer in these polls and at the end. Then the run stops without an error, there or earlier,
  -- whatever would be polled after that, and nothing is left in the batch.
  pub archive_stops :
      (max_rows : ℕ) (ys : List Poll) (x : Poll) (rest : List Poll) (last : Poll) (s : Archive Row)
      → all_quiet ys ≡ true
      → Due x s
      → covered s.eof_partitions (reported ys) x.assignment ≡ true
      → last.appends ≡ true
      → last.commits ≡ true
      → let r = archive v max_rows (ys ++ x ∷ rest) last s in
        (r.0 ≡ stopped) × (is_empty r.1.batch ≡ true)
  unfolding archive
  archive_stops max_rows ys x rest last s q d cov a c =
      flush_at_end_stops last (archive_loop v max_rows (ys ++ x ∷ rest) s) a c
        (archive_loop-Stops max_rows ys x rest s q d cov)

-- ===== src/Dagster/Bronze/Rows.antt =====
-- The records that a run of the archiver in assets/bronze.py polls, against table and DLQ.
use bluesky_trends.Prelude.{
  ℕ, ◌+◌, ◌≡◌, refl, String, Bool, true, false, none, some, List, [], ◌∷◌, ◌++◌, arith, ltb, ap,
  sym, ◌∙◌, if◌then◌else◌,
}
use mathlib.Core.List.{append-nil, append_assoc}
use bluesky_trends.Dagster.Decode.{Place, Decoded, row, dlq, DlqRow}
use bluesky_trends.Dagster.Batch.{add, len, clear}
use bluesky_trends.Dagster.Bronze.{
  Polled, nothing, kafka_error, message, Poll, Vertical, Archive, Status, going, stopped, failed,
  flush, discard, flush_if_due, stop_if_idle, quarantine, accept, discard, place_at, handle, turn,
  archive_loop, archive, flush_at_end,
}

abbrev pub is_failed : Status → Bool
is_failed (failed _) = true
is_failed _ = false

module _ {Row : Type 0} where
  -- The rows that are written, and then those that wait in the batch.
  abbrev pub held : Archive Row → List Row
  held s = s.table ++ s.batch.rows

  module _ (v : Vertical Row) where
    abbrev pub row_list : Decoded Row → List Row
    row_list (row r) = r ∷ []
    row_list (dlq d) = []

    abbrev dlq_list : Decoded Row → List (DlqRow × String)
    dlq_list (row r) = []
    dlq_list (dlq d) = (d, v.topic) ∷ []

    -- What the record of a poll decodes to, if it has one.
    unfoldable pub rows_of : Polled → Poll → List Row
    rows_of (message (some p) (some o) value) x =
        row_list (v.decode (v.deserialize value) (place_at v x p o))
    rows_of _ x = []

    unfoldable pub dlq_of : Polled → Poll → List (DlqRow × String)
    dlq_of (message (some p) (some o) value) x =
        dlq_list (v.decode (v.deserialize value) (place_at v x p o))
    dlq_of _ x = []

    unfoldable pub all_rows : List Poll → List Row
    all_rows [] = []
    all_rows (x ∷ rest) = rows_of x.polled x ++ all_rows rest

    unfoldable pub all_dlq : List Poll → List (DlqRow × String)
    all_dlq [] = []
    all_dlq (x ∷ rest) = dlq_of x.polled x ++ all_dlq rest

    -- The step from `s` to `p` wrote or holds the rows, and quarantined the records, unless it failed.
    abbrev Adds : Archive Row → List Row → List (DlqRow × String) → Status × Archive Row → Type 0
    Adds s rs ds (st, s') =
        is_failed st ≡ false → (held s' ≡ held s ++ rs) × (s'.dlq_sent ≡ s.dlq_sent ++ ds)

    flush-held :
        (x : Poll) (s : Archive Row)
        → is_failed (flush x s).0 ≡ false
        → (held (flush x s).1 ≡ held s) × ((flush x s).1.dlq_sent ≡ s.dlq_sent)
    unfolding flush clear
    flush-held x s h = ground (arith, append-nil (s.table ++ s.batch.rows))

    flush_if_due-held :
        (x : Poll) (s : Archive Row)
        → is_failed (flush_if_due x s).0 ≡ false
        → (held (flush_if_due x s).1 ≡ held s) × ((flush_if_due x s).1.dlq_sent ≡ s.dlq_sent)
    unfolding flush_if_due
    flush_if_due-held x s h = ground (arith, flush-held x s)

    stop_if_idle-held :
        (x : Poll) (p : Status × Archive Row)
        → is_failed (stop_if_idle x p).0 ≡ false
        → (is_failed p.0 ≡ false) × ((stop_if_idle x p).1 ≡ p.1)
    stop_if_idle-held x (going, s) h = ground arith
    stop_if_idle-held x (stopped, s) h = (refl, refl)
    stop_if_idle-held x (failed f, s) h = cc

    accept-Adds :
        (x : Poll) (p : Place) (d : Decoded Row) (s : Archive Row)
        → Adds s (row_list d) (dlq_list d) (accept v x p d s)
    unfolding accept quarantine add
    accept-Adds x p (dlq d) s h = ground (arith, append-nil (held s))
    accept-Adds x p (row r) s h =
        let s' : Archive Row = record s { batch = add v.place r s.batch } in
        let (a, b) = flush_if_due-held x s' h in
        (a ∙ sym (append_assoc s.table s.batch.rows (r ∷ [])), b ∙ sym (append-nil s.dlq_sent))

    handle-Adds :
        (m : Polled) (x : Poll) (s : Archive Row)
        → Adds s (rows_of m x) (dlq_of m x) (handle v m x s)
    unfolding handle rows_of dlq_of
    handle-Adds nothing x s h =
        let (ok', same) = stop_if_idle-held x (flush_if_due x s) h in
        let (a, b) = flush_if_due-held x s ok' in
        (rw same (a ∙ sym (append-nil (held s))), rw same (b ∙ sym (append-nil s.dlq_sent)))
    handle-Adds (kafka_error true (some p)) x s h =
        (sym (append-nil (held s)), sym (append-nil s.dlq_sent))
    handle-Adds (kafka_error false _) x s h = cc
    handle-Adds (kafka_error true none) x s h = cc
    handle-Adds (message (some p) (some o) value) x s h =
        accept-Adds x (place_at v x p o) (v.decode (v.deserialize value) (place_at v x p o))
          (record s { last_activity = x.now; eof_partitions = discard p s.eof_partitions }) h
    handle-Adds (message none _ value) x s h =
        (sym (append-nil (held s)), sym (append-nil s.dlq_sent))
    handle-Adds (message (some _) none value) x s h =
        (sym (append-nil (held s)), sym (append-nil s.dlq_sent))

    -- From `s` to `p` some of the polls, from the first on, were handled, each record once.
    abbrev Handles : List Poll → Archive Row → Status × Archive Row → Type 0
    Handles polls s (st, s') =
        is_failed st ≡ false
        → (first : List Poll) × (rest : List Poll) × (polls ≡ first ++ rest)
          × (held s' ≡ held s ++ all_rows first)
          × (s'.dlq_sent ≡ s.dlq_sent ++ all_dlq first)

    none-Handles : (polls : List Poll) (s : Archive Row) (st : Status) → Handles polls s (st, s)
    unfolding all_rows all_dlq
    none-Handles polls s st h =
        ([], polls, refl, sym (append-nil (held s)), sym (append-nil s.dlq_sent))

    next-Handles :
        (x : Poll) (rest : List Poll) (s s' : Archive Row) (p : Status × Archive Row)
        → (held s' ≡ held s ++ rows_of x.polled x) × (s'.dlq_sent ≡ s.dlq_sent ++ dlq_of x.polled x)
        → Handles rest s' p
        → Handles (x ∷ rest) s p
    unfolding all_rows all_dlq
    next-Handles x rest s s' (st, s'') (a, b) later h =
        let (first, after, e, rs, ds) = later h in
        (
          x ∷ first,
          after,
          ap (λ (l : List Poll). x ∷ l) e,
          rs
              ∙ ap (λ (l : List Row). l ++ all_rows first) a
              ∙ append_assoc (held s) (rows_of x.polled x) (all_rows first),
          ds
              ∙ ap (λ (l : List (DlqRow × String)). l ++ all_dlq first) b
              ∙ append_assoc s.dlq_sent (dlq_of x.polled x) (all_dlq first),
        )

    if-Handles :
        (polls : List Poll) (s : Archive Row) (b : Bool) (p q : Status × Archive Row)
        → Handles polls s p
        → Handles polls s q
        → Handles polls s (if b then p else q)
    if-Handles polls s true p q x y = x
    if-Handles polls s false p q x y = y

    after_turn :
        (x : Poll) (rest : List Poll) (s : Archive Row) (t later : Status × Archive Row)
        → Adds s (rows_of x.polled x) (dlq_of x.polled x) t
        → Handles rest t.1 later
        → Handles (x ∷ rest) s (elim t.0 as (λ _. Status × Archive Row) [
          | going ↦ later
          | stopped ↦ (stopped, t.1)
          | failed f ↦ (failed f, t.1)
        ])
    after_turn x rest s (going, s') later a l = next-Handles x rest s s' later (a refl) l
    after_turn x rest s (stopped, s') later a l =
        next-Handles x rest s s' (stopped, s') (a refl) (none-Handles rest s' stopped)
    after_turn x rest s (failed f, s') later a l = λ h. cc

    archive_loop-Handles :
        (max_rows : ℕ) (polls : List Poll) (s : Archive Row)
        → Handles polls s (archive_loop v max_rows polls s)
    unfolding archive_loop turn
    archive_loop-Handles max_rows [] s =
        none-Handles [] s (if ltb (s.archived + len s.batch) max_rows then going else stopped)
    archive_loop-Handles max_rows (x ∷ rest) s =
        let t = handle v x.polled x s in
        if-Handles (x ∷ rest) s (ltb (s.archived + len s.batch) max_rows) _ (stopped, s)
          (after_turn x rest s t (archive_loop v max_rows rest t.1) (handle-Adds x.polled x s)
            (archive_loop-Handles max_rows rest t.1))
          (none-Handles (x ∷ rest) s stopped)

    -- From `s` to `s'` the records of a first part of the polls were written or quarantined.
    abbrev pub Archived : List Poll → Archive Row → Archive Row → Type 0
    Archived polls s s' =
        (first : List Poll) × (rest : List Poll) × (polls ≡ first ++ rest)
        × (s'.table ≡ held s ++ all_rows first)
        × (s'.dlq_sent ≡ s.dlq_sent ++ all_dlq first)

    table-flush :
        (x : Poll) (s : Archive Row)
        → is_failed (flush x s).0 ≡ false
        → ((flush x s).1.table ≡ held s) × ((flush x s).1.dlq_sent ≡ s.dlq_sent)
    unfolding flush
    table-flush x s h = ground (arith, append-nil s.table)

    flush_at_end-Archived :
        (polls : List Poll) (last : Poll) (s : Archive Row) (p : Status × Archive Row)
        → Handles polls s p
        → (flush_at_end v last p).0 ≡ stopped
        → Archived polls s (flush_at_end v last p).1
    flush_at_end-Archived polls last s (going, s') a e = absurd (cc)
    flush_at_end-Archived polls last s (stopped, s') a e =
        let (first, rest, split, rows, dlqs) = a refl in
        let (t, d) = table-flush last s' (ground arith) in (first, rest, split, t ∙ rows, d ∙ dlqs)
    flush_at_end-Archived polls last s (failed f, s') a e = absurd (cc)

    -- A run of the archiver that ends without an error has handled the records of a first part of
    -- its polls, each once and in order: the table has gained exactly the rows that the records
    -- decode to, after those that waited in the batch, and the DLQ exactly those that do not
    -- decode.
    pub archive_complete :
        (max_rows : ℕ) (polls : List Poll) (last : Poll) (s : Archive Row)
        → (archive v max_rows polls last s).0 ≡ stopped
        → Archived polls s (archive v max_rows polls last s).1
    unfolding archive
    archive_complete max_rows polls last s e =
        flush_at_end-Archived polls last s (archive_loop v max_rows polls s)
          (archive_loop-Handles max_rows polls s) e

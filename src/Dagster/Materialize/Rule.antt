-- ===== src/Dagster/Materialize/Rule.antt =====
-- The rule for what every step of the archiver in assets/bronze.py keeps, unless it fails.
use bluesky_trends.Prelude.{
  ℕ, ◌≡◌, refl, Bool, true, false, List, [], ◌∷◌, ltb, if◌then◌else◌, ◌+◌, arith,
}
use bluesky_trends.Dagster.Batch.{len}
use bluesky_trends.Dagster.Bronze.{
  Poll, Vertical, Archive, Status, going, stopped, failed, flush, turn, archive_loop, archive,
  flush_at_end,
}
use bluesky_trends.Dagster.Bronze.Rows.{is_failed}

module _ {Row : Type 0} (v : Vertical Row) (P : Archive Row → Type 0)
    (turns : (x : Poll) (s : Archive Row)
      → is_failed (turn v x s).0 ≡ false
      → P s
      → P (turn v x s).1)
    (flushes : (x : Poll) (s : Archive Row)
      → is_failed (flush x s).0 ≡ false
      → P s
      → P (flush x s).1) where
  -- What a turn keeps if it goes on, the rest of the loop keeps.
  after_turn :
      (t p : Status × Archive Row)
      → (is_failed t.0 ≡ false → P t.1)
      → (P t.1 → is_failed p.0 ≡ false → P p.1)
      → let r : Status × Archive Row = elim t.0 as (λ _. Status × Archive Row) [
        | going ↦ p
        | stopped ↦ (stopped, t.1)
        | failed f ↦ (failed f, t.1)
      ] in
        is_failed r.0 ≡ false → P r.1
  after_turn (going, s) p h k e = k (h refl) e
  after_turn (stopped, s) p h k e = h refl
  after_turn (failed f, s) p h k e = cc

  if_holds :
      (b : Bool) (p q : Status × Archive Row)
      → (is_failed p.0 ≡ false → P p.1)
      → (is_failed q.0 ≡ false → P q.1)
      → is_failed (if b then p else q).0 ≡ false
      → P (if b then p else q).1
  if_holds true p q x y = x
  if_holds false p q x y = y

  loop_rule :
      (max_rows : ℕ) (polls : List Poll) (s : Archive Row)
      → P s
      → is_failed (archive_loop v max_rows polls s).0 ≡ false
      → P (archive_loop v max_rows polls s).1
  unfolding archive_loop
  loop_rule max_rows [] s h = λ e. h
  loop_rule max_rows (x ∷ rest) s h =
      let t = turn v x s in
      if_holds (ltb (s.archived + len s.batch) max_rows) _ (stopped, s)
        (after_turn t (archive_loop v max_rows rest t.1) (λ e. turns x s e h)
          (loop_rule max_rows rest t.1))
        (λ e. h)

  flush_at_end_rule :
      (last : Poll) (p : Status × Archive Row)
      → (is_failed p.0 ≡ false → P p.1)
      → is_failed (flush_at_end v last p).0 ≡ false
      → P (flush_at_end v last p).1
  flush_at_end_rule last (going, s) h e = h refl
  flush_at_end_rule last (stopped, s) h e = flushes last s (ground arith) (h refl)
  flush_at_end_rule last (failed f, s) h e = cc

  -- What each turn and each flush keeps, unless it fails, a run keeps, unless it fails.
  pub archive_rule :
      (max_rows : ℕ) (polls : List Poll) (last : Poll) (s : Archive Row)
      → P s
      → is_failed (archive v max_rows polls last s).0 ≡ false
      → P (archive v max_rows polls last s).1
  unfolding archive
  archive_rule max_rows polls last s h =
      flush_at_end_rule last (archive_loop v max_rows polls s) (loop_rule max_rows polls s h)

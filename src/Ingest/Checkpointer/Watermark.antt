-- ===== src/Ingest/Checkpointer/Watermark.antt =====
-- What the watermark of `_CursorCheckpointer` means.
use bluesky_trends.Prelude.{ℕ, ◌≤◌, ◌≡◌, true, false, List, ◌∷◌, arith, inl, inr, ◌↔◌, Bool-cases}
use bluesky_trends.Ingest.Config.{Settings}
use bluesky_trends.Ingest.CursorStore.{CursorStore}
use bluesky_trends.Ingest.Checkpointer.{
  register, on_ack, mark_acked, advance_watermark, maybe_save, final_save,
}
use bluesky_trends.Ingest.Checkpointer.Advance.{above}
use bluesky_trends.Ingest.Checkpointer.Trace.{
  Call, produced, delivered, checkpoint, shutdown, run, registered, acked, InOrder, NeverFalls,
}
use bluesky_trends.Ingest.Checkpointer.Passes.{advance_over-Passes}
use bluesky_trends.Ingest.Checkpointer.Replay.{run-Covers, marked-Pass, marked-safe_cursor}
use bluesky_trends.Ingest.Checkpointer.Invariant.{run-Tracks}

-- Every cursor registered up to `c` was acked after it had been registered.
abbrev pub AckedUpTo : ℕ → List Call → Type 0
AckedUpTo c h = (d : ℕ) → registered d h ≡ true → d ≤ c → acked d h ≡ true

module _ (settings : Settings) (now : ℕ) (store : CursorStore) (h : List Call) (o : InOrder h) where
  acked_below : (c : ℕ) → above (run settings now store h).0.safe_cursor c ≡ false → AckedUpTo c h
  acked_below c w d r le = (run-Tracks settings now store h o).folded d r (ground arith)

  reached :
      (c : ℕ)
      → registered c h ≡ true
      → AckedUpTo c h
      → above (run settings now store h).0.safe_cursor c ≡ false
  reached c r all =
      let t = run-Tracks settings now store h o in
      elim (Bool-cases (above (run settings now store h).0.safe_cursor c)) [
        | inr below ↦ below
        | inl over ↦
            let (g, lt, waiting) = t.gap c (ground (arith, t.pending c, all c r)) in
            absurd (ground (arith, t.pending g, all g))
      ]

  -- Where the cursors are registered in increasing order, the watermark has reached a registered
  -- cursor exactly when that cursor and all registered cursors below it were acked.
  pub watermark_exact :
      (c : ℕ)
      → registered c h ≡ true
      → (above (run settings now store h).0.safe_cursor c ≡ false) ↔ AckedUpTo c h
  watermark_exact c r = (acked_below c, reached c r)

-- Where the registered cursors never fall, no call moves the watermark back: what
-- lies above it after the call lay above it before.
pub watermark_monotone :
    (settings : Settings) (now : ℕ) (store : CursorStore) (k : Call) (h : List Call) (c : ℕ)
    → NeverFalls (k ∷ h)
    → above (run settings now store (k ∷ h)).0.safe_cursor c ≡ true
    → above (run settings now store h).0.safe_cursor c ≡ true
unfolding run
watermark_monotone settings now store (produced d) h c o = unfold register in λ e. e
watermark_monotone settings now store (delivered false d) h c o = unfold on_ack in λ e. e
watermark_monotone settings now store (delivered true d) h c o =
    let cp = (run settings now store h).0 in
    let w = marked-Pass h cp (run-Covers settings now store h o) d in
    unfold on_ack advance_watermark in
    λ e. ground (
      arith,
      marked-safe_cursor h cp (run-Covers settings now store h o) d,
      advance_over-Passes _ (mark_acked d cp) c w,
    )
watermark_monotone settings now store (checkpoint n) h c o = unfold maybe_save in λ e. ground arith
watermark_monotone settings now store shutdown h c o = unfold final_save in λ e. ground arith

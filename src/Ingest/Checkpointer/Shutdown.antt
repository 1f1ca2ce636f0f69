-- ===== src/Ingest/Checkpointer/Shutdown.antt =====
-- What `final_save` of `_CursorCheckpointer` in ingest/main.py leaves in the store at shutdown.
use bluesky_trends.Prelude.{
  ℕ, ◌≤◌, ◌≡◌, refl, Bool, true, false, some, List, ◌∷◌, arith, inl, inr, Option-cases, Bool-cases,
  ◌∙◌,
}
use bluesky_trends.Prelude.Dict.{Dict, lookup}
use bluesky_trends.Ingest.Config.{Settings}
use bluesky_trends.Ingest.CursorStore.{CursorStore, load}
use bluesky_trends.Ingest.Checkpointer.{final_save, is_acked}
use bluesky_trends.Ingest.Checkpointer.Advance.{above}
use bluesky_trends.Ingest.Checkpointer.Trace.{Call, shutdown, run, registered, NeverFalls}
use bluesky_trends.Ingest.Checkpointer.Replay.{run-Covers}
use bluesky_trends.Ingest.Checkpointer.Resume.{final_save-stores}

-- No registered cursor is above `c`.
abbrev pub Last : ℕ → List Call → Type 0
Last c h = (d : ℕ) → registered d h ≡ true → d ≤ c

-- No pending cursor waits for its delivery.
abbrev pub NoneWaits : Dict Bool → Type 0
NoneWaits pending = (d : ℕ) → lookup d pending ≡ some false → ⊥

module _ (settings : Settings) (now : ℕ) (store : CursorStore) (h : List Call) (o : NeverFalls h)
    (idle : NoneWaits (run settings now store h).0.pending_acks) where
  -- Then the watermark has reached every registered cursor.
  pub idle_reaches :
      (c : ℕ) → registered c h ≡ true → above (run settings now store h).0.safe_cursor c ≡ false
  idle_reaches c r =
      let t = run-Covers settings now store h o in
      elim (Bool-cases (above (run settings now store h).0.safe_cursor c)) [
        | inr below ↦ below
        | inl over ↦
            elim (Bool-cases (is_acked (lookup c (run settings now store h).0.pending_acks))) [
              | inr waits ↦ absurd (idle c (ground (arith, t.known c r over)))
              | inl done ↦ absurd (let (g, _, waits) = t.gap c (ground arith) in idle g waits)
            ]
      ]

  shutdown-safe_cursor :
      (run settings now store (shutdown ∷ h)).0.safe_cursor
      ≡ (run settings now store h).0.safe_cursor
  unfolding run final_save
  shutdown-safe_cursor = ground arith

  -- The last registered cursor is what the save at shutdown leaves in the store, however often the watermark was saved
  -- before.
  pub shutdown_saves-Last :
      (c : ℕ)
      → registered c h ≡ true
      → Last c h
      → load settings.stream_name (run settings now store (shutdown ∷ h)).1 ≡ some c
  shutdown_saves-Last c r last = elim (Option-cases (run settings now store h).0.safe_cursor) [
    | inl nothing ↦ absurd (let e = idle_reaches c r in let e' = rw nothing at e in cc)
    | inr (s, safe) ↦
        let le = last s ((run-Covers settings now store h o).seen s safe) in
        let e = idle_reaches c r in
        let same : s ≡ c = (let e' = rw safe at e in ground (arith, le)) in
        rw (final_save-stores settings now store h s o (shutdown-safe_cursor ∙ safe), same) refl
  ]

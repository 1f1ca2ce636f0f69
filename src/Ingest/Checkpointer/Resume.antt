-- ===== src/Ingest/Checkpointer/Resume.antt =====
-- What the stored cursor means to the next run.
use bluesky_trends.Prelude.{
  ℕ, ◌≡◌, refl, Bool, true, false, Option, none, some, List, [], ◌∷◌, arith, inl, inr, ◌⊎◌, ◌∙◌,
  Bool-cases, Option-cases, eq_iff,
}
use bluesky_trends.Ingest.Config.{Settings}
use bluesky_trends.Ingest.CursorStore.{CursorStore, load, load-save}
use bluesky_trends.Ingest.Checkpointer.{
  Checkpointer, register, on_ack, mark_acked, fold_cursor, advance_watermark, advance_over,
  maybe_save, final_save, due, save_watermark, same_cursor,
}
use bluesky_trends.Ingest.Checkpointer.Advance.{above}
use bluesky_trends.Ingest.Checkpointer.Trace.{
  Call, produced, delivered, checkpoint, shutdown, run, registered, acked, NeverFalls,
  Latest-registered,
}
use bluesky_trends.Ingest.Checkpointer.Replay.{Covers, run-Covers}
use bluesky_trends.Ingest.Checkpointer.Watermark.{AckedUpTo}

advance_over-saved_cursor :
    (ks : List ℕ) (cp : Checkpointer) → (advance_over ks cp).saved_cursor ≡ cp.saved_cursor
unfolding advance_over
advance_over-saved_cursor [] cp = refl
advance_over-saved_cursor (k ∷ ks) cp =
    ground (arith, advance_over-saved_cursor ks (fold_cursor k cp))

on_ack-saved_cursor :
    (success : Bool) (c : ℕ) (cp : Checkpointer)
    → (on_ack success c cp).saved_cursor ≡ cp.saved_cursor
unfolding on_ack advance_watermark mark_acked
on_ack-saved_cursor false c cp = refl
on_ack-saved_cursor true c cp = advance_over-saved_cursor _ (mark_acked c cp) ∙ ground arith

module _ (settings : Settings) (now : ℕ) (store : CursorStore) where
  abbrev pub loaded : CursorStore → Option ℕ
  loaded st = load settings.stream_name st

  -- The row of the stream is the one that the run began with, or a watermark that was saved.
  abbrev pub Stored : List Call → Checkpointer × CursorStore → Type 0
  Stored h (cp, st) =
      ((cp.saved_cursor ≡ none) × (loaded st ≡ loaded store))
      ⊎ ((s : ℕ) × (cp.saved_cursor ≡ some s)
          × (loaded st ≡ some s)
          × (registered s h ≡ true)
          × AckedUpTo s h)

  loaded-save_watermark :
      (s : ℕ) (st : CursorStore) → loaded (save_watermark settings (some s) st) ≡ some s
  unfolding save_watermark
  loaded-save_watermark s st = ground (
    arith,
    load-save settings.stream_name settings.stream_name s st,
    eq_iff settings.stream_name settings.stream_name,
  )

  produced-Stored :
      (c : ℕ) (h : List Call) (st : Checkpointer × CursorStore)
      → NeverFalls (produced c ∷ h)
      → Stored h st
      → Stored (produced c ∷ h) (register c st.0, st.1)
  unfolding register registered acked
  produced-Stored c h st o (inl begun) = inl begun
  produced-Stored c h st o (inr (s, saved, row, reg, all)) =
      inr
        (s, saved, row, ground arith, λ d r le. ground (arith, all d, Latest-registered c s h o.0))

  delivered-Stored :
      (success : Bool) (c : ℕ) (h : List Call) (st : Checkpointer × CursorStore)
      → Stored h st
      → Stored (delivered success c ∷ h) (on_ack success c st.0, st.1)
  unfolding registered acked
  delivered-Stored success c h st (inl begun) =
      inl (ground (arith, on_ack-saved_cursor success c st.0))
  delivered-Stored success c h st (inr (s, saved, row, reg, all)) =
      inr (s, on_ack-saved_cursor success c st.0 ∙ saved, row, reg, λ d r le. ground (arith, all d))

  -- What a method that may save has done to the state.
  abbrev Saves : Checkpointer × CursorStore → Checkpointer × CursorStore → Type 0
  Saves st st' =
      (st' ≡ st)
      ⊎ ((s : ℕ) × (st.0.safe_cursor ≡ some s)
          × (st'.0.saved_cursor ≡ some s)
          × (st'.1 ≡ save_watermark settings (some s) st.1))

  maybe_save-Saves : (n : ℕ) (st : Checkpointer × CursorStore) → Saves st (maybe_save settings n st)
  unfolding maybe_save
  maybe_save-Saves n st = elim (Bool-cases (due settings n st.0)) [
    | inr not_due ↦ inl (rw not_due)
    | inl is_due ↦ elim (Option-cases st.0.safe_cursor) [
      | inl nothing ↦ absurd (unfold due in ground arith)
      | inr (s, safe) ↦ inr (s, safe, rw is_due safe, rw (is_due, safe))
    ]
  ]

  final_save-Saves : (st : Checkpointer × CursorStore) → Saves st (final_save settings st)
  unfolding final_save
  final_save-Saves st = elim (Option-cases st.0.safe_cursor) [
    | inl nothing ↦ inl (rw (nothing))
    | inr (s, safe) ↦ elim (Bool-cases (same_cursor (some s) st.0.saved_cursor)) [
      | inl same ↦ inl (rw (safe, same))
      | inr other ↦ inr (s, safe, rw (safe, other), rw (safe, other))
    ]
  ]

  Saves-Stored :
      (h : List Call) (st st' : Checkpointer × CursorStore)
      → Covers h st.0
      → Saves st st'
      → Stored h st
      → Stored h st'
  Saves-Stored h st st' t (inl same) old = rw same old
  Saves-Stored h st st' t (inr (s, safe, saved, stored)) old = inr (
    s,
    saved,
    rw stored (loaded-save_watermark s st.1),
    t.seen s safe,
    λ d r le. t.folded d r (ground arith),
  )

  pub run-Stored : (h : List Call) → NeverFalls h → Stored h (run settings now store h)
  unfolding run registered acked
  run-Stored [] o = inl (refl, refl)
  run-Stored (produced c ∷ h) o =
      produced-Stored c h (run settings now store h) o (run-Stored h o.1)
  run-Stored (delivered success c ∷ h) o =
      delivered-Stored success c h (run settings now store h) (run-Stored h o)
  run-Stored (checkpoint n ∷ h) o =
      Saves-Stored h (run settings now store h) _ (run-Covers settings now store h o)
        (maybe_save-Saves n (run settings now store h)) (run-Stored h o)
  run-Stored (shutdown ∷ h) o =
      Saves-Stored h (run settings now store h) _ (run-Covers settings now store h o)
        (final_save-Saves (run settings now store h)) (run-Stored h o)

  -- Where the registered cursors never fall, a cursor above the one that the run began with that
  -- was registered and not acked lies above the stored cursor, whenever the run stops: the next
  -- run, which resumes there, reads it again.
  pub resume_safe :
      (h : List Call) (c : ℕ)
      → NeverFalls h
      → above (loaded store) c ≡ true
      → registered c h ≡ true
      → acked c h ≡ false
      → above (loaded (run settings now store h).1) c ≡ true
  resume_safe h c o begun r a = elim (run-Stored h o) [
    | inl (_, row) ↦ rw row begun
    | inr (s, _, row, _, all) ↦ rw row (ground (arith, all c r))
  ]

  final_save-saved_cursor :
      (st : Checkpointer × CursorStore) (s : ℕ)
      → (final_save settings st).0.safe_cursor ≡ some s
      → (final_save settings st).0.saved_cursor ≡ some s
  unfolding final_save
  final_save-saved_cursor st s e = ground arith

  -- Where the registered cursors never fall, the stored cursor after the save at
  -- shutdown is the watermark, if there is one.
  pub final_save-stores :
      (h : List Call) (s : ℕ)
      → NeverFalls h
      → (run settings now store (shutdown ∷ h)).0.safe_cursor ≡ some s
      → loaded (run settings now store (shutdown ∷ h)).1 ≡ some s
  unfolding run
  final_save-stores h s o safe =
      let saved = final_save-saved_cursor (run settings now store h) s safe in
      elim (run-Stored (shutdown ∷ h) o) [
        | inl (unsaved, _) ↦ absurd (ground arith)
        | inr (m, stored, row, _, _) ↦ ground arith
      ]

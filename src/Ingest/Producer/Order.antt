-- ===== src/Ingest/Producer/Order.antt =====
-- The delivery callbacks of ingest/producer.py in the orders in which librdkafka may call them.
use mathlib.Core.List.{Perm, Permᴰ}
use mathlib.Core.Logic.{∥∥₁_elim}
use bluesky_trends.Prelude.{
  ℕ, ◌≡◌, refl, ap, sym, ◌∙◌, Bool, true, false, List, [], ◌∷◌, arith, none, if◌then◌else◌,
}
use bluesky_trends.Prelude.Dict.{Dict, lookup}
use bluesky_trends.Ingest.Config.{Settings}
use bluesky_trends.Ingest.CursorStore.{CursorStore}
use bluesky_trends.Ingest.Checkpointer.{Checkpointer}
use bluesky_trends.Ingest.Checkpointer.Advance.{above}
use bluesky_trends.Ingest.Checkpointer.Trace
use bluesky_trends.Ingest.Checkpointer.Trace.{Call, InOrder, registered, acked, delivered}
use bluesky_trends.Ingest.Checkpointer.Invariant.{run-Tracks}
use bluesky_trends.Ingest.Checkpointer.Ledger.{
  mark, step, ledger, prefix_end, lookup-ledger, run-refines,
}
use bluesky_trends.Ingest.Kafka.{cursor_acked, dlq_logged, Report}
use bluesky_trends.Ingest.Producer.{run_callbacks}
use bluesky_trends.Ingest.Consume.Calls.{after_reports, after_reports-InOrder, run-after_reports}

abbrev mark_report : Report → Dict Bool → Dict Bool
mark_report (cursor_acked c, true) l = mark c l
mark_report (cursor_acked c, false) l = l
mark_report (dlq_logged, success) l = l

mark_all : List Report → Dict Bool → Dict Bool
mark_all [] l = l
mark_all (r ∷ rs) l = mark_all rs (mark_report r l)

ledger-after_reports :
    (rs : List Report) (h : List Call) → ledger (after_reports rs h) ≡ mark_all rs (ledger h)
unfolding ledger step after_reports mark_all
ledger-after_reports [] h = refl
ledger-after_reports ((cursor_acked c, true) ∷ rs) h =
    ledger-after_reports rs (delivered true c ∷ h)
ledger-after_reports ((cursor_acked c, false) ∷ rs) h =
    ledger-after_reports rs (delivered false c ∷ h)
ledger-after_reports ((dlq_logged, success) ∷ rs) h = ledger-after_reports rs h

mark_comm : (c d : ℕ) (l : Dict Bool) → mark c (mark d l) ≡ mark d (mark c l)
unfolding mark
mark_comm c d [] = refl
mark_comm c d ((e, a) ∷ l) = ground (arith, mark_comm c d l)

mark_report_comm :
    (r r' : Report) (l : Dict Bool)
    → mark_report r (mark_report r' l) ≡ mark_report r' (mark_report r l)
mark_report_comm (cursor_acked c, true) (cursor_acked d, true) l = mark_comm c d l
mark_report_comm (cursor_acked c, true) (cursor_acked d, false) l = refl
mark_report_comm (cursor_acked c, true) (dlq_logged, b) l = refl
mark_report_comm (cursor_acked c, false) r' l = refl
mark_report_comm (dlq_logged, b) r' l = refl

mark_all-perm_d :
    {rs rs' : List Report} (l : Dict Bool) → Permᴰ rs rs' → mark_all rs l ≡ mark_all rs' l
unfolding mark_all
mark_all-perm_d l Permᴰ.nil = refl
mark_all-perm_d l (Permᴰ.cons {l₂ = rs'} e p) = rw e (mark_all-perm_d _ p)
mark_all-perm_d l (Permᴰ.swap {a' = a'} {b' = b'} {l = rs} e e') =
    rw (e, e') (ap (mark_all rs) (mark_report_comm a' b' l))
mark_all-perm_d l (Permᴰ.trans p q) = mark_all-perm_d l p ∙ mark_all-perm_d l q

mark_all-perm :
    {rs rs' : List Report} (l : Dict Bool) → Perm rs rs' → mark_all rs l ≡ mark_all rs' l
mark_all-perm l p = ∥∥₁_elim p (hlevel) (mark_all-perm_d l)

module _ (settings : Settings) (now : ℕ) (store : CursorStore) (h : List Call) (o : InOrder h) where
  -- The checkpointer after the callbacks of some reports.
  abbrev reported : List Report → Checkpointer
  reported rs = run_callbacks rs (Trace.run settings now store h).0

  reported-safe_cursor :
      (rs : List Report) → (reported rs).safe_cursor ≡ prefix_end (ledger (after_reports rs h))
  reported-safe_cursor rs =
      let e = run-refines settings now store (after_reports rs h) (after_reports-InOrder rs h o) in
      rw run-after_reports at e

  reported-lookup :
      (rs : List Report) (c : ℕ)
      → lookup c (reported rs).pending_acks ≡ (
          if above (reported rs).safe_cursor c
          then lookup c (ledger (after_reports rs h))
          else none)
  reported-lookup rs c =
      let t = run-Tracks settings now store (after_reports rs h) (after_reports-InOrder rs h o) in
      let e = t.pending c in
      let e' = rw run-after_reports at e in
      ground (arith, lookup-ledger c (after_reports rs h) (after_reports-InOrder rs h o))

same_ledger :
    {rs rs' : List Report} (h : List Call)
    → Perm rs rs'
    → ledger (after_reports rs h) ≡ ledger (after_reports rs' h)
same_ledger {rs} {rs'} h p =
    ledger-after_reports rs h ∙ mark_all-perm (ledger h) p ∙ sym (ledger-after_reports rs' h)

-- The order in which the delivery callbacks are called makes no difference to the checkpointer's
-- watermark, nor to which cursors are pending and acked. The callbacks run after any history in
-- which the cursors increase.
pub run_callbacks-perm :
    (settings : Settings) (now : ℕ) (store : CursorStore) (h : List Call) {rs rs' : List Report}
    → InOrder h
    → Perm rs rs'
    → let cp = (Trace.run settings now store h).0 in
      ((run_callbacks rs cp).safe_cursor ≡ (run_callbacks rs' cp).safe_cursor)
      × ((c : ℕ)
          → lookup c (run_callbacks rs cp).pending_acks
            ≡ lookup c (run_callbacks rs' cp).pending_acks)
run_callbacks-perm settings now store h {rs} {rs'} o p =
    let same = same_ledger h p in
    let e = reported-safe_cursor settings now store h o rs in
    let e' = reported-safe_cursor settings now store h o rs' in
    let safe = e ∙ ap prefix_end same ∙ sym e' in
    (
      safe,
      λ c. ground (
        arith,
        reported-lookup settings now store h o rs c,
        reported-lookup settings now store h o rs' c,
        ap (lookup c) same,
      ),
    )

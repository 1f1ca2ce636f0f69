-- ===== src/Ingest/Consume/Calls.antt =====
-- The ingest loop as a history of calls of the checkpointer: a poll is a run of deliveries.
use bluesky_trends.Prelude.{
  ℕ, ◌<◌, ◌≤◌, ◌≡◌, refl, true, ◌||◌, false, ◌==◌, some, List, [], ◌∷◌, arith,
}
use bluesky_trends.Ingest.Config.{Settings}
use bluesky_trends.Ingest.CursorStore.{CursorStore}
use bluesky_trends.Ingest.Checkpointer.Trace
use bluesky_trends.Ingest.Checkpointer.Trace.{
  Call, produced, delivered, checkpoint, shutdown, registered, acked, Newest, InOrder, NeverFalls,
  Latest,
}
use bluesky_trends.Ingest.Kafka.{cursor_acked, dlq_logged, Report, reports_success}
use bluesky_trends.Ingest.Producer.{run_callback, run_callbacks}
use bluesky_trends.Prelude.Dict.{lookup, lookup-erase, lookup-insert, contains-eq-lookup}
use bluesky_trends.Ingest.Checkpointer.{
  Checkpointer, on_ack, mark_acked, advance_watermark, advance_over, fold_cursor,
}

-- The history after the callbacks of some reports.
unfoldable pub after_reports : List Report → List Call → List Call
after_reports [] h = h
after_reports ((cursor_acked c, success) ∷ rs) h = after_reports rs (delivered success c ∷ h)
after_reports ((dlq_logged, success) ∷ rs) h = after_reports rs h

pub registered-after_reports :
    (c : ℕ) (rs : List Report) (h : List Call) → registered c (after_reports rs h) ≡ registered c h
unfolding after_reports registered
registered-after_reports c [] h = refl
registered-after_reports c ((cursor_acked d, s) ∷ rs) h =
    registered-after_reports c rs (delivered s d ∷ h)
registered-after_reports c ((dlq_logged, s) ∷ rs) h = registered-after_reports c rs h

pub after_reports-InOrder :
    (rs : List Report) (h : List Call) → InOrder h → InOrder (after_reports rs h)
unfolding after_reports
after_reports-InOrder [] h o = o
after_reports-InOrder ((cursor_acked d, s) ∷ rs) h o =
    after_reports-InOrder rs (delivered s d ∷ h) o
after_reports-InOrder ((dlq_logged, s) ∷ rs) h o = after_reports-InOrder rs h o

pub after_reports-NeverFalls :
    (rs : List Report) (h : List Call) → NeverFalls h → NeverFalls (after_reports rs h)
unfolding after_reports
after_reports-NeverFalls [] h o = o
after_reports-NeverFalls ((cursor_acked d, s) ∷ rs) h o =
    after_reports-NeverFalls rs (delivered s d ∷ h) o
after_reports-NeverFalls ((dlq_logged, s) ∷ rs) h o = after_reports-NeverFalls rs h o

pub acked-after_reports :
    (c : ℕ) (rs : List Report) (h : List Call)
    → acked c (after_reports rs h) ≡ true
    → (acked c h || reports_success c rs) ≡ true
unfolding after_reports acked reports_success
acked-after_reports c [] h a = ground arith
acked-after_reports c ((cursor_acked d, s) ∷ rs) h a =
    ground (arith, acked-after_reports c rs (delivered s d ∷ h) a)
acked-after_reports c ((dlq_logged, s) ∷ rs) h a = ground (arith, acked-after_reports c rs h a)

pub run-after_reports :
    (settings : Settings) (now : ℕ) (store : CursorStore) (rs : List Report) (h : List Call)
    → Trace.run settings now store (after_reports rs h)
      ≡ (run_callbacks rs (Trace.run settings now store h).0, (Trace.run settings now store h).1)
unfolding after_reports run_callbacks Trace.run
run-after_reports settings now store [] h = refl
run-after_reports settings now store ((cursor_acked d, s) ∷ rs) h =
    run-after_reports settings now store rs (delivered s d ∷ h)
run-after_reports settings now store ((dlq_logged, s) ∷ rs) h =
    run-after_reports settings now store rs h

-- A cursor above all that are registered is the newest.
pub Newest-of : (c : ℕ) (h : List Call) → ((d : ℕ) → registered d h ≡ true → d < c) → Newest c h
unfolding registered
Newest-of c [] all = tt
Newest-of c (produced e ∷ h) all =
    (all e (ground arith), Newest-of c h (λ d r. all d (ground arith)))
Newest-of c (delivered _ _ ∷ h) all = Newest-of c h all
Newest-of c (checkpoint _ ∷ h) all = Newest-of c h all
Newest-of c (shutdown ∷ h) all = Newest-of c h all

pub Latest-of : (c : ℕ) (h : List Call) → ((d : ℕ) → registered d h ≡ true → d ≤ c) → Latest c h
unfolding registered
Latest-of c [] all = tt
Latest-of c (produced e ∷ h) all =
    (all e (ground arith), Latest-of c h (λ d r. all d (ground arith)))
Latest-of c (delivered _ _ ∷ h) all = Latest-of c h all
Latest-of c (checkpoint _ ∷ h) all = Latest-of c h all
Latest-of c (shutdown ∷ h) all = Latest-of c h all

advance_over-waits :
    (ks : List ℕ) (cp : Checkpointer) (c : ℕ)
    → lookup c (advance_over ks cp).pending_acks ≡ some false
    → lookup c cp.pending_acks ≡ some false
unfolding advance_over
advance_over-waits [] cp c e = e
advance_over-waits (k ∷ ks) cp c e =
    ground (arith, advance_over-waits ks (fold_cursor k cp) c, lookup-erase c k cp.pending_acks)

mark_acked-waits :
    (d : ℕ) (cp : Checkpointer) (c : ℕ)
    → lookup c (mark_acked d cp).pending_acks ≡ some false
    → (lookup c cp.pending_acks ≡ some false) × ((c == d) ≡ false)
unfolding mark_acked
mark_acked-waits d cp c e =
    ground (arith, lookup-insert c d true cp.pending_acks, contains-eq-lookup d cp.pending_acks)

-- What waits after the callbacks waited before them, and no success was reported of it.
pub run_callbacks-waits :
    (c : ℕ) (rs : List Report) (cp : Checkpointer)
    → lookup c (run_callbacks rs cp).pending_acks ≡ some false
    → (lookup c cp.pending_acks ≡ some false) × (reports_success c rs ≡ false)
unfolding run_callbacks run_callback reports_success on_ack advance_watermark
run_callbacks-waits c [] cp e = (e, refl)
run_callbacks-waits c ((cursor_acked d, true) ∷ rs) cp e =
    let (e', none_later) = run_callbacks-waits c rs (on_ack true d cp) e in
    let (e'', other) = mark_acked-waits d cp c (advance_over-waits _ (mark_acked d cp) c e') in
    (e'', ground arith)
run_callbacks-waits c ((cursor_acked d, false) ∷ rs) cp e = run_callbacks-waits c rs cp e
run_callbacks-waits c ((dlq_logged, true) ∷ rs) cp e = run_callbacks-waits c rs cp e
run_callbacks-waits c ((dlq_logged, false) ∷ rs) cp e = run_callbacks-waits c rs cp e

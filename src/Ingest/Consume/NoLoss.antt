-- ===== src/Ingest/Consume/NoLoss.antt =====
-- `run` of ingest/main.py as a whole: the events that arrive against the broker and the stored cursor.
use bluesky_trends.Prelude.{
  ℕ, ◌≡◌, refl, true, Bool, Option, none, List, [], arith, inl, inr, ◌⊎◌, Bool-cases,
}
use bluesky_trends.Schemas.{Pydantic}
use bluesky_trends.Prelude.Dict.{lookup}
use bluesky_trends.Ingest.Config.{Settings}
use bluesky_trends.Ingest.CursorStore.{CursorStore, load}
use bluesky_trends.Ingest.Checkpointer.Advance.{above}
use bluesky_trends.Ingest.Checkpointer.Trace
use bluesky_trends.Ingest.Checkpointer.Resume.{run-Stored, resume_safe}
use bluesky_trends.Ingest.Checkpointer.Trace.{
  Call, shutdown, registered, acked, Newest, InOrder, Newest-registered,
}
use bluesky_trends.Ingest.Kafka.{Kafka}
use bluesky_trends.Ingest.Consume.{
  Printing, Arrival, Session, consume, drain_session, new_session, run,
}
use bluesky_trends.Ingest.Consume.Follows.{Follows}
use bluesky_trends.Ingest.Consume.Rising.{Rising, arrives}
use bluesky_trends.Ingest.Consume.Settled.{Settled, consume-Settled}
use bluesky_trends.Ingest.Consume.Drained.{drain_session-Settled, finally-session}

module _ {Queue : Type 0} (kafka : Kafka Queue) (py : Pydantic) (print : Printing)
    (settings : Settings) (now : ℕ) (begin : CursorStore) where
  -- A cursor that was registered, or is newer than all that were.
  cursor_safe :
      (h : List Call) (s : Session Queue) (c : ℕ)
      → Follows kafka settings now begin h s.outbox s.store
      → above (load settings.stream_name begin) c ≡ true
      → (registered c h ≡ true) ⊎ Newest c h
      → (kafka.stored c s.outbox.queue ≡ true)
        ⊎ (above (load settings.stream_name s.store) c ≡ true)
  cursor_safe h s c f up (inl r) = elim (Bool-cases (acked c h)) [
    | inl a ↦ inl (f.stored c a)
    | inr waits ↦
        let safe = resume_safe settings now begin h c f.in_order up r waits in
        inr (rw f.state at safe)
  ]
  cursor_safe h s c f up (inr n) = elim (run-Stored settings now begin h f.in_order) [
    | inl (_, row) ↦ inr (let row' = rw f.state at row in rw row' up)
    | inr (m, _, row, r, _) ↦
        inr (let row' = rw f.state at row in rw row' (ground (arith, Newest-registered c m h n r)))
  ]

  pub begun :
      (queue : Queue)
      → Follows kafka settings now begin [] (new_session now queue begin).outbox begin
  begun queue = record {
    in_order = tt;
    state = unfold Trace.run in refl;
    stored = λ d a. unfold acked in absurd (ground arith);
    live = λ w d e. unfold lookup in absurd (ground arith);
  }

  consumed :
      (queue : Queue) (l : List Arrival)
      → Rising py none l
      → Settled kafka py print settings now begin [] l
          (consume kafka py print settings l (new_session now queue begin)).1
  consumed queue l r =
      consume-Settled kafka py print settings now begin none l [] (new_session now queue begin) r
        (λ d x. unfold registered in absurd (ground arith)) (begun queue)

  -- The loop over events whose cursors never fall, one of which arrives with a cursor above the
  -- one that the run loads, without and with the `finally` after it.
  pub consume_keeps :
      (queue : Queue) (l : List Arrival) (c : ℕ)
      → Rising py none l
      → arrives py c l ≡ true
      → above (load settings.stream_name begin) c ≡ true
      → let s = (consume kafka py print settings l (new_session now queue begin)).1 in
        (kafka.stored c s.outbox.queue ≡ true)
        ⊎ (above (load settings.stream_name s.store) c ≡ true)
  consume_keeps queue l c r e up =
      let s = (consume kafka py print settings l (new_session now queue begin)).1 in
      let (h, f, _, all) = consumed queue l r in cursor_safe h s c f up (all c e)

  pub drain_session_keeps :
      (wall : ℕ) (saves : Bool) (queue : Queue) (l : List Arrival) (c : ℕ)
      → Rising py none l
      → arrives py c l ≡ true
      → above (load settings.stream_name begin) c ≡ true
      → let s =
          (drain_session kafka py print settings wall saves
            (consume kafka py print settings l (new_session now queue begin)).1).1 in
        (kafka.stored c s.outbox.queue ≡ true)
        ⊎ (above (load settings.stream_name s.store) c ≡ true)
  drain_session_keeps wall saves queue l c r e up =
      let s = (consume kafka py print settings l (new_session now queue begin)).1 in
      let (h, f, _, all) =
        drain_session-Settled kafka py print settings now begin [] l wall saves s
          (consumed queue l r) in
      cursor_safe h (drain_session kafka py print settings wall saves s).1 c f up (all c e)

-- `run` loses no event that it can parse. Let the cursors of these events never fall, as when
-- Jetstream replays the event of a cursor after a reconnect. Then, however the loop ends and whichever
-- saves Postgres refuses, each event whose cursor lies above the one that the run loads is with
-- the broker at the end, or lies above the cursor that is stored then, from which the next run
-- reads it again.
pub run_no_loss :
    {Queue : Type 0} (kafka : Kafka Queue) (py : Pydantic) (print : Printing) (settings : Settings)
    (now wall : ℕ) (saves : Bool) (queue : Queue) (store : CursorStore)
    (arrivals : Option ℕ → List Arrival) (c : ℕ)
    → Rising py none (arrivals (load settings.stream_name store))
    → arrives py c (arrivals (load settings.stream_name store)) ≡ true
    → above (load settings.stream_name store) c ≡ true
    → let s = (run kafka py print settings now wall saves queue store arrivals).1 in
      (kafka.stored c s.outbox.queue ≡ true) ⊎ (above (load settings.stream_name s.store) c ≡ true)
unfolding run
run_no_loss kafka py print settings now wall saves queue store arrivals c r e up =
    let start = load settings.stream_name store in
    rw finally-session (
      drain_session_keeps kafka py print settings now store wall saves queue (arrivals start) c r e
        up)

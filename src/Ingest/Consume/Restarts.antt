-- ===== src/Ingest/Consume/Restarts.antt =====
-- The ingest service of ingest/main.py over its restarts: each process loads the cursor that the
-- one before it left, and asks Jetstream to replay from there. A process ends through the
-- `finally` of `run`, or it is killed.
use bluesky_trends.Prelude.{ℕ, ◌≡◌, Bool, true, Option, none, List, [], ◌∷◌, inl, inr, ◌⊎◌, All}
use bluesky_trends.Schemas.{Pydantic}
use bluesky_trends.Ingest.Config.{Settings}
use bluesky_trends.Ingest.CursorStore.{CursorStore, load}
use bluesky_trends.Ingest.Checkpointer.Advance.{above}
use bluesky_trends.Ingest.Kafka.{Kafka}
use bluesky_trends.Ingest.Consume.{Printing, Arrival, Session, consume, new_session, run}
use bluesky_trends.Ingest.Consume.Rising.{Rising, arrives}
use bluesky_trends.Ingest.Consume.Killed.{Moment, at_moment, at_moment-store, at_moment_keeps}
use bluesky_trends.Ingest.Consume.Drained.{finally-session}
use bluesky_trends.Ingest.Consume.NoLoss.{consume_keeps, drain_session_keeps}
use bluesky_trends.Ingest.Consume.Preserves.{consume_preserves, drain_session_preserves}

-- How a process ends: through `finally`, at the wall clock's time, with Postgres taking the last
-- save or not, or killed at some moment.
pub data Ending : Type 0 where
  drained : ℕ → Bool → Ending
  killed : Moment → Ending

-- A process: its clock at the start, the events that Jetstream sends from a cursor on, with the
-- times and the state of `stop` at their turns, and its end.
pub record Process : Type 0 where
  pub started : ℕ
  pub arrivals : Option ℕ → List Arrival
  pub ending : Ending

module _ {Queue : Type 0} (kafka : Kafka Queue) (py : Pydantic) (print : Printing)
    (settings : Settings) where
  -- The session that a process leaves, from the queue that it begins with.
  abbrev pub session_after : Ending → Process → Queue → CursorStore → Session Queue
  session_after (drained wall saves) p queue store =
      (run kafka py print settings p.started wall saves queue store p.arrivals).1
  session_after (killed m) p queue store =
      at_moment kafka py print settings m
        (consume kafka py print settings (p.arrivals (load settings.stream_name store))
          (new_session p.started queue store)).1

  -- The queue and the stored cursor after the processes, in their order. `restart` is the queue
  -- of a new producer, in front of the same broker.
  unfoldable pub run_processes :
      (Queue → Queue) → List Process → Queue × CursorStore → Queue × CursorStore
  run_processes restart [] (queue, store) = (queue, store)
  run_processes restart (p ∷ ps) (queue, store) =
      let s = session_after p.ending p (restart queue) store in
      run_processes restart ps (s.outbox.queue, s.store)

  -- Jetstream's replay: the events come in the order of their cursors, and the event of cursor
  -- `c` is among those from a cursor below it on.
  pub record Replays (c : ℕ) (p : Process) : Type 0 where
    pub rising : (from : Option ℕ) → Rising py none (p.arrivals from)
    pub complete : (from : Option ℕ) → above from c ≡ true → arrives py c (p.arrivals from) ≡ true

  -- The broker has the event, or the next process reads it again.
  abbrev pub Kept : ℕ → Queue × CursorStore → Type 0
  Kept c state =
      (kafka.stored c state.0 ≡ true) ⊎ (above (load settings.stream_name state.1) c ≡ true)

  at_moment-Kept :
      (c : ℕ) (m : Moment) (s : Session Queue)
      → Kept c (s.outbox.queue, s.store)
      → let s' = at_moment kafka py print settings m s in Kept c (s'.outbox.queue, s'.store)
  at_moment-Kept c m s (inl held) = inl (at_moment_keeps kafka py print settings c m s held)
  at_moment-Kept c m s (inr up) = inr (rw at_moment-store up)

  -- A process that begins below the cursor.
  session_after-Kept :
      (c : ℕ) (ending : Ending) (p : Process) (queue : Queue) (store : CursorStore)
      → Replays c p
      → above (load settings.stream_name store) c ≡ true
      → let s = session_after ending p queue store in Kept c (s.outbox.queue, s.store)
  unfolding run
  session_after-Kept c (drained wall saves) p queue store r up =
      let from = load settings.stream_name store in
      rw finally-session (
        drain_session_keeps kafka py print settings p.started store wall saves queue
          (p.arrivals from) c (r.rising from) (r.complete from up) up)
  session_after-Kept c (killed m) p queue store r up =
      let from = load settings.stream_name store in
      at_moment-Kept c m _ (
        consume_keeps kafka py print settings p.started store queue (p.arrivals from) c
          (r.rising from) (r.complete from up) up)

  -- What the broker has it still has after the loop, and after a process.
  consume-stored :
      (c : ℕ) (l : List Arrival) (s : Session Queue)
      → kafka.stored c s.outbox.queue ≡ true
      → kafka.stored c (consume kafka py print settings l s).1.outbox.queue ≡ true
  consume-stored c l s h =
      consume_preserves kafka (λ q. kafka.stored c q ≡ true) (λ m. kafka.offer_stored c m)
        (kafka.serve_stored c) (kafka.drain_stored c) py print settings l s h

  session_after-stored :
      (c : ℕ) (ending : Ending) (p : Process) (queue : Queue) (store : CursorStore)
      → kafka.stored c queue ≡ true
      → kafka.stored c (session_after ending p queue store).outbox.queue ≡ true
  unfolding run
  session_after-stored c (drained wall saves) p queue store h = rw finally-session (
      drain_session_preserves kafka (λ q. kafka.stored c q ≡ true) (λ m. kafka.offer_stored c m)
        (kafka.serve_stored c) (kafka.drain_stored c) py print settings wall saves _
        (consume-stored c (p.arrivals (load settings.stream_name store))
          (new_session p.started queue store) h))
  session_after-stored c (killed m) p queue store h =
      at_moment_keeps kafka py print settings c m _ (
        consume-stored c (p.arrivals (load settings.stream_name store))
          (new_session p.started queue store) h)

  module _ (restart : Queue → Queue)
      (same_broker : (c : ℕ) (q : Queue)
        → kafka.stored c q ≡ true
        → kafka.stored c (restart q) ≡ true) where
    process-Kept :
        (c : ℕ) (p : Process) (queue : Queue) (store : CursorStore)
        → Replays c p
        → Kept c (queue, store)
        → let s = session_after p.ending p (restart queue) store in Kept c (s.outbox.queue, s.store)
    process-Kept c p queue store r (inl has) =
        inl (session_after-stored c p.ending p (restart queue) store (same_broker c queue has))
    process-Kept c p queue store r (inr up) =
        session_after-Kept c p.ending p (restart queue) store r up

    -- No event that parses is lost over any number of processes of the service, each of which ends
    -- through `finally` or is killed, between two turns of its loop or in one, before its save.
    -- Postgres may refuse any save, which ends the loop, and also the last one. Jetstream replays to
    -- each process the events in the order of their cursors, with the event among them whenever it
    -- lies above the cursor asked for. Then the broker has the event at the end, or it lies above the
    -- stored cursor, if one of the two held before.
    pub run_processes_no_loss :
        (c : ℕ) (ps : List Process) (queue : Queue) (store : CursorStore)
        → All (Replays c) ps
        → Kept c (queue, store)
        → Kept c (run_processes restart ps (queue, store))
    unfolding run_processes
    run_processes_no_loss c [] queue store r k = k
    run_processes_no_loss c (p ∷ ps) queue store r k =
        let s = session_after p.ending p (restart queue) store in
        run_processes_no_loss c ps s.outbox.queue s.store r.1 (process-Kept c p queue store r.0 k)

-- ===== src/Ingest/Consume/CatchesUp.antt =====
-- `run` of ingest/main.py when no delivery fails, Postgres takes the statements and nothing stops the
-- loop: what is with the broker and in the store when the events end.
use bluesky_trends.Prelude.{
  ℕ, ◌≡◌, refl, Bool, true, ◌&&◌, Option, none, some, List, [], ◌∷◌, inl, inr, Option-cases, arith,
}
use bluesky_trends.Exceptions.{ok}
use bluesky_trends.Schemas.{Pydantic}
use bluesky_trends.Ingest.Config.{Settings}
use bluesky_trends.Ingest.CursorStore.{CursorStore, load}
use bluesky_trends.Ingest.Checkpointer.Trace.{registered}
use bluesky_trends.Ingest.Kafka.{Kafka, Healthy}
use bluesky_trends.Ingest.Consume.{Printing, Arrival, consume, new_session, run}
use bluesky_trends.Ingest.Consume.Follows.{taken_cursor}
use bluesky_trends.Ingest.Consume.Rising.{Rising, arrives}
use bluesky_trends.Ingest.Consume.Drained.{finally-session, finally-result}
use bluesky_trends.Ingest.Consume.NoLoss.{begun}
use bluesky_trends.Ingest.Consume.Completes.{drain_session_completes}
use bluesky_trends.Ingest.Consume.ReadsAll.{
  undisturbed, final_cursor, consume-CaughtUp, drain_session_stores, drain_session_delivers,
}

abbrev holds_for : (ℕ → Bool) → Option ℕ → Bool
holds_for test none = true
holds_for test (some c) = test c

-- A test that holds of the cursor of every event that parses.
abbrev pub each_cursor : Pydantic → (ℕ → Bool) → List Arrival → Bool
each_cursor py test [] = true
each_cursor py test (a ∷ rest) = holds_for test (taken_cursor py a) && each_cursor py test rest

all-each_cursor :
    (py : Pydantic) (test : ℕ → Bool) (l : List Arrival)
    → ((c : ℕ) → arrives py c l ≡ true → test c ≡ true)
    → each_cursor py test l ≡ true
unfolding arrives
all-each_cursor py test [] all = refl
all-each_cursor py test (a ∷ rest) all = elim (Option-cases (taken_cursor py a)) [
  | inl none_here ↦ rw none_here (all-each_cursor py test rest (λ c e. all c (ground arith)))
  | inr (c, here) ↦
      let later = all-each_cursor py test rest (λ d e. all d (ground arith)) in
      let now = all c (ground arith) in ground arith
]

module _ {Queue : Type 0} (kafka : Kafka Queue) (healthy : Healthy kafka) (py : Pydantic)
    (print : Printing) (settings : Settings) (now : ℕ) (begin : CursorStore) where
  run_ends :
      (wall : ℕ) (queue : Queue) (arrivals : Option ℕ → List Arrival)
      → Rising py (load settings.stream_name begin) (arrivals (load settings.stream_name begin))
      → undisturbed (arrivals (load settings.stream_name begin)) ≡ true
      → let start = load settings.stream_name begin in
        let (r, s) = run kafka py print settings now wall true queue begin arrivals in
        (r ≡ ok tt)
        × ((c : ℕ) → arrives py c (arrivals start) ≡ true → kafka.stored c s.outbox.queue ≡ true)
        × (load settings.stream_name s.store ≡ final_cursor py start (arrivals start))
  unfolding run
  run_ends wall queue arrivals r calm =
      let start = load settings.stream_name begin in
      let l = arrivals start in
      let s0 = new_session now queue begin in
      let s = (consume kafka py print settings l s0).1 in
      let (ends, h, f, u, reached, _, all) =
        consume-CaughtUp kafka healthy py print settings now begin start l [] s0 r calm
          (λ d e. unfold registered in absurd (ground arith))
          (begun kafka py print settings now begin queue) in
      let drained = drain_session_completes kafka healthy py print settings wall s in
      (
        finally-result kafka py print settings now begin _ _ ends drained,
        λ c e.
            (rw finally-session (
              drain_session_delivers kafka healthy py print settings now begin wall h s c f
                (all c e))),
        rw finally-session
            (drain_session_stores kafka healthy py print settings now begin wall _ h s f u reached),
      )

-- With a librdkafka whose deliveries succeed, a Postgres that takes every statement, and the
-- cursors of the events that parse never falling, from the cursor that the run loads on, a run that
-- is not stopped returns without an exception when its events end. Every event that parses is with
-- the broker then, and the stored cursor is that of the last of them, or as it was if there was none.
pub run_catches_up :
    {Queue : Type 0} (kafka : Kafka Queue) (healthy : Healthy kafka) (py : Pydantic)
    (print : Printing) (settings : Settings) (now wall : ℕ) (queue : Queue) (store : CursorStore)
    (arrivals : Option ℕ → List Arrival)
    → Rising py (load settings.stream_name store) (arrivals (load settings.stream_name store))
    → undisturbed (arrivals (load settings.stream_name store)) ≡ true
    → let start = load settings.stream_name store in
      let p = run kafka py print settings now wall true queue store arrivals in
      (p.0 ≡ ok tt)
      × (each_cursor py (λ c. kafka.stored c p.1.outbox.queue) (arrivals start) ≡ true)
      × (load settings.stream_name p.1.store ≡ final_cursor py start (arrivals start))
run_catches_up kafka healthy py print settings now wall queue store arrivals r calm =
    let l = arrivals (load settings.stream_name store) in
    let p = run kafka py print settings now wall true queue store arrivals in
    let (ends, held, row) =
      run_ends kafka healthy py print settings now store wall queue arrivals r calm in
    (ends, all-each_cursor py (λ c. kafka.stored c p.1.outbox.queue) l held, row)

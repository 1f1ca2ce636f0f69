-- ===== src/Ingest/Consume/Killed.antt =====
-- A process of the ingest service that is killed, at each moment of `run` in ingest/main.py between
-- two statements that change the queue or the store.
use bluesky_trends.Prelude.{
  ℕ, String, ◌≡◌, refl, Bool, true, false, Option, none, some, if◌then◌else◌,
}
use bluesky_trends.Exceptions.{Result, ok, raised, is_value_error, is_malformed_error}
use bluesky_trends.Json.{get, as_int}
use bluesky_trends.Schemas.{Pydantic}
use bluesky_trends.Ingest.Config.{Settings}
use bluesky_trends.Ingest.Metrics.{Metrics}
use bluesky_trends.Ingest.Parse.{Event, to_model}
use bluesky_trends.Ingest.Kafka.{Kafka}
use bluesky_trends.Ingest.Producer.{Outbox, poll, flush}
use bluesky_trends.Ingest.Consume.{Printing, Arrival, Session, with_outbox, to_dlq, to_kafka, route}
use bluesky_trends.Ingest.Consume.Preserves.{route_keeps}

-- Between two turns; in the turn of an event, after it was handed over and before the poll, or after
-- the poll and before the save; in the `finally`, after the flush and before the save. A save that
-- Postgres took is the end of its turn.
pub data Moment : Type 0 where
  between_turns : Moment
  before_poll : Arrival → Moment
  after_poll : Arrival → Moment
  after_flush : Moment

module _ {Queue : Type 0} (kafka : Kafka Queue) (py : Pydantic) (print : Printing)
    (settings : Settings) where
  -- The session at the moment, from the one after the last turn that ended.
  unfoldable pub at_moment : Moment → Session Queue → Session Queue
  at_moment between_turns s = s
  at_moment (before_poll a) s = (route kafka py print settings (to_model py a.event) a s).1
  at_moment (after_poll a) s =
      let s' = (route kafka py print settings (to_model py a.event) a s).1 in
      record s' { outbox = poll kafka 0 s'.outbox }
  at_moment after_flush s = record s { outbox = (flush kafka 30000 s.outbox).0 }

  with_outbox-store :
      (f : Metrics → Metrics) (s : Session Queue) (p : Result (Unit {0}) × Outbox Queue)
      → (with_outbox f s p).1.store ≡ s.store
  with_outbox-store f s (ok _, out) = refl
  with_outbox-store f s (raised e, out) = refl

  to_dlq-store :
      (error reason : String) (a : Arrival) (s : Session Queue)
      → (to_dlq kafka py print settings error reason a s).1.store ≡ s.store
  unfolding to_dlq
  to_dlq-store error reason a s = rw with_outbox-store refl

  to_kafka-store :
      (model : Event) (o : Option ℕ) (a : Arrival) (s : Session Queue)
      → (to_kafka kafka py print settings model o a s).1.store ≡ s.store
  unfolding to_kafka
  to_kafka-store model none a s = to_dlq-store _ _ a s
  to_kafka-store model (some c) a s = rw with_outbox-store refl

  if-store :
      (b : Bool) (p q : Result (Unit {0}) × Session Queue) (s : Session Queue)
      → p.1.store ≡ s.store
      → q.1.store ≡ s.store
      → (if b then p else q).1.store ≡ s.store
  if-store true p q s x y = x
  if-store false p q s x y = y

  route-store :
      (r : Result Event) (a : Arrival) (s : Session Queue)
      → (route kafka py print settings r a s).1.store ≡ s.store
  unfolding route
  route-store (ok model) a s = to_kafka-store model (as_int (get "time_us" a.event)) a s
  route-store (raised e) a s =
      if-store (is_value_error e) _ _ s refl
        (if-store (is_malformed_error e) _ _ s (to_dlq-store _ _ a s) refl)

  -- Nothing was saved since the last turn ended.
  pub at_moment-store : (m : Moment) (s : Session Queue) → (at_moment m s).store ≡ s.store
  unfolding at_moment
  at_moment-store between_turns s = refl
  at_moment-store (before_poll a) s = route-store (to_model py a.event) a s
  at_moment-store (after_poll a) s = route-store (to_model py a.event) a s
  at_moment-store after_flush s = refl

  route-stored :
      (c : ℕ) (a : Arrival) (s : Session Queue)
      → kafka.stored c s.outbox.queue ≡ true
      → kafka.stored c (route kafka py print settings (to_model py a.event) a s).1.outbox.queue
        ≡ true
  route-stored c a s h =
      route_keeps kafka (λ q. kafka.stored c q ≡ true) (λ m. kafka.offer_stored c m)
        (kafka.serve_stored c) (kafka.drain_stored c) py print settings (to_model py a.event) a s h

  -- What the broker had it has.
  pub at_moment_keeps :
      (c : ℕ) (m : Moment) (s : Session Queue)
      → kafka.stored c s.outbox.queue ≡ true
      → kafka.stored c (at_moment m s).outbox.queue ≡ true
  unfolding at_moment poll flush
  at_moment_keeps c between_turns s h = h
  at_moment_keeps c (before_poll a) s h = route-stored c a s h
  at_moment_keeps c (after_poll a) s h = kafka.serve_stored c 0 _ (route-stored c a s h)
  at_moment_keeps c after_flush s h = kafka.drain_stored c 30000 s.outbox.queue h

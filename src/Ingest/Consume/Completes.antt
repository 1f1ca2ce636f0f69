-- ===== src/Ingest/Consume/Completes.antt =====
-- A turn of the loop of ingest/main.py when no delivery fails and Postgres takes the statements.
use bluesky_trends.Prelude.{
  ℕ, String, ◌≡◌, refl, true, false, not, ◌&&◌, Option, none, some, inl, inr, Bool-cases, arith,
}
use bluesky_trends.Exceptions.{
  Result, ok, raised, value_error, validation_error, key_error, type_error, buffer_error,
  postgres_error,
}
use bluesky_trends.Json.{get, as_int}
use bluesky_trends.Schemas.{Pydantic}
use bluesky_trends.Ingest.Config.{Settings}
use bluesky_trends.Ingest.Metrics.{Metrics}
use bluesky_trends.Ingest.Parse.{Event, to_model}
use bluesky_trends.Ingest.Parse.Errors.{to_model-is_io_error, is_io_error}
use bluesky_trends.Ingest.Checkpointer.{due, unsaved, maybe_save_or_raise, final_save_or_raise}
use bluesky_trends.Ingest.Kafka.{Kafka, Healthy}
use bluesky_trends.Ingest.Producer.{Outbox, poll, flush, enqueue, produce, produce_dlq}
use bluesky_trends.Ingest.Consume.{
  Printing, Arrival, Session, with_outbox, to_dlq, to_kafka, route, finish_turn, finish_if_ok, turn,
  drain_session,
}
use bluesky_trends.Ingest.Consume.Produces.{attempts-Ends}

module _ {Queue : Type 0} (kafka : Kafka Queue) (healthy : Healthy kafka) (py : Pydantic)
    (print : Printing) (settings : Settings) where
  with_outbox-result :
      (f : Metrics → Metrics) (s : Session Queue) (p : Result (Unit {0}) × Outbox Queue)
      → (with_outbox f s p).0 ≡ p.0
  with_outbox-result f s (ok _, out) = refl
  with_outbox-result f s (raised e, out) = refl

  to_dlq_completes :
      (error reason : String) (a : Arrival) (s : Session Queue)
      → (to_dlq kafka py print settings error reason a s).0 ≡ ok tt
  unfolding to_dlq produce_dlq enqueue
  to_dlq_completes error reason a s = rw with_outbox-result (attempts-Ends kafka 4 _ _ healthy)

  to_kafka_completes :
      (model : Event) (o : Option ℕ) (a : Arrival) (s : Session Queue)
      → (to_kafka kafka py print settings model o a s).0 ≡ ok tt
  unfolding to_kafka produce enqueue
  to_kafka_completes model none a s =
      to_dlq_completes "missing or non-int time_us" "missing_time_us" a s
  to_kafka_completes model (some c) a s = rw with_outbox-result (attempts-Ends kafka 4 _ _ healthy)

  route_completes :
      (r : Result Event) (a : Arrival) (s : Session Queue)
      → is_io_error r ≡ false
      → (route kafka py print settings r a s).0 ≡ ok tt
  unfolding route
  route_completes (ok model) a s h = to_kafka_completes model (as_int (get "time_us" a.event)) a s
  route_completes (raised (value_error x)) a s h = refl
  route_completes (raised validation_error) a s h = refl
  route_completes (raised (key_error k)) a s h = to_dlq_completes _ _ a s
  route_completes (raised type_error) a s h = to_dlq_completes _ _ a s
  route_completes (raised buffer_error) a s h = absurd (cc)
  route_completes (raised postgres_error) a s h = absurd (cc)

  finish_turn_completes :
      (a : Arrival) (s : Session Queue)
      → a.saves ≡ true
      → (finish_turn kafka py print settings a s).0 ≡ ok tt
  unfolding finish_turn maybe_save_or_raise
  finish_turn_completes a s works =
      elim (Bool-cases
        (due settings a.monotonic (poll kafka 0 s.outbox).checkpointer && not a.saves)) [
          | inl fails ↦ absurd (ground arith)
          | inr goes ↦ rw goes refl
        ]

  finish_if_ok_completes :
      (a : Arrival) (p : Result (Unit {0}) × Session Queue)
      → a.saves ≡ true
      → p.0 ≡ ok tt
      → (finish_if_ok kafka py print settings a p).0 ≡ ok tt
  finish_if_ok_completes a (ok _, s) works e = finish_turn_completes a s works
  finish_if_ok_completes a (raised x, s) works e = e

  pub turn_completes :
      (a : Arrival) (s : Session Queue)
      → a.saves ≡ true
      → (turn kafka py print settings a s).0 ≡ ok tt
  unfolding turn
  turn_completes a s works =
      finish_if_ok_completes a _ works
        (route_completes (to_model py a.event) a s (to_model-is_io_error py a.event))

  -- The last save does not raise.
  pub drain_session_completes :
      (wall : ℕ) (s : Session Queue) → (drain_session kafka py print settings wall true s).0 ≡ ok tt
  unfolding drain_session final_save_or_raise
  drain_session_completes wall s =
      elim (Bool-cases (unsaved (flush kafka 30000 s.outbox).0.checkpointer && false)) [
        | inl fails ↦ absurd (ground arith)
        | inr goes ↦ rw goes refl
      ]

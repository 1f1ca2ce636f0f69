-- ===== src/Ingest/Consume/Routing.antt =====
-- Which message a turn of the ingest loop hands to Kafka.
use bluesky_trends.Prelude.{
  ℕ, String, ◌≡◌, refl, false, Option, none, some, List, ◌∷◌, inl, inr, ◌⊎◌, ◌∙◌, ap, not, ◌&&◌,
  Bool-cases,
}
use bluesky_trends.Json.{get, as_int}
use bluesky_trends.Exceptions.{
  Result, ok, raised, value_error, validation_error, key_error, type_error, buffer_error,
  postgres_error,
}
use bluesky_trends.Schemas.{Pydantic}
use bluesky_trends.Ingest.Config.{Settings}
use bluesky_trends.Ingest.Metrics.{Metrics, record_event, record_dlq}
use bluesky_trends.Ingest.Parse.{Event, to_model}
use bluesky_trends.Ingest.Parse.Errors.{to_model-is_io_error, is_io_error}
use bluesky_trends.Ingest.Checkpointer.{register, due, maybe_save_or_raise}
use bluesky_trends.Ingest.Kafka.{Message, Kafka}
use bluesky_trends.Ingest.Producer.{
  Outbox, run_callbacks, poll, produce, produce_dlq, event_message, dlq_message,
}
use bluesky_trends.Ingest.Producer.Enqueue.{enqueue-Once, Once}
use bluesky_trends.Ingest.Consume.{
  Printing, Arrival, Session, with_outbox, to_dlq, to_kafka, route, finish_turn, finish_if_ok, turn,
  collection_of,
}

module _ {Queue : Type 0} (kafka : Kafka Queue) (py : Pydantic) (print : Printing)
    (settings : Settings) where
  unfoldable pub dlq_for : String → Arrival → Message
  dlq_for error a = dlq_message kafka settings (record {
    raw_payload = print.dumps a.event;
    error = error;
    intended_topic = print.to_str (collection_of a.event);
    received_at = a.wall;
  })

  -- The message that an arrival calls for: a model with a cursor goes to its topic, one without
  -- to the DLQ, and of the exceptions only `KeyError` and `TypeError` send the event there.
  unfoldable pub message_for : Result Event → Option ℕ → Arrival → Option Message
  unfolding dlq_for
  message_for (ok model) (some c) a = some (event_message kafka settings model c)
  message_for (ok model) none a = some (dlq_for "missing or non-int time_us" a)
  message_for (raised (key_error k)) o a = some (dlq_for (print.repr (key_error k)) a)
  message_for (raised type_error) o a = some (dlq_for (print.repr type_error) a)
  message_for (raised _) o a = none

  abbrev pub put : Option Message → List Message → List Message
  put none l = l
  put (some m) l = m ∷ l

  -- The message was handed over once, and the turn goes on or ends with an exception of Postgres;
  -- or `BufferError` ends the loop with nothing handed over.
  abbrev pub Hands : Option Message → Session Queue → Result (Unit {0}) × Session Queue → Type 0
  Hands o s (r, s') =
      (((r ≡ ok tt) ⊎ (r ≡ raised postgres_error))
        × (kafka.taken s'.outbox.queue ≡ put o (kafka.taken s.outbox.queue)))
      ⊎ ((r ≡ raised buffer_error) × (kafka.taken s'.outbox.queue ≡ kafka.taken s.outbox.queue))

  Once-Hands :
      (m : Message) (f : Metrics → Metrics) (s : Session Queue) (out : Outbox Queue)
      (p : Result (Unit {0}) × Outbox Queue)
      → out.queue ≡ s.outbox.queue
      → Once kafka 5 m out p
      → Hands (some m) s (with_outbox f s p)
  Once-Hands m f s out (ok _, out') e (inl (_, held)) = inl (inl refl, rw e at held)
  Once-Hands m f s out (ok _, out') e (inr (fail, _, _)) = absurd (cc)
  Once-Hands m f s out (raised x, out') e (inl (done, _)) = absurd (cc)
  Once-Hands m f s out (raised x, out') e (inr (fail, held, _)) = inr (fail, rw e at held)

  to_dlq-Hands :
      (error reason : String) (a : Arrival) (s : Session Queue)
      → Hands (some (dlq_for error a)) s (to_dlq kafka py print settings error reason a s)
  unfolding to_dlq produce_dlq dlq_for
  to_dlq-Hands error reason a s =
      Once-Hands (dlq_for error a) (record_dlq reason) s s.outbox _ refl
        (enqueue-Once kafka (dlq_for error a) s.outbox)

  to_kafka-Hands :
      (model : Event) (o : Option ℕ) (a : Arrival) (s : Session Queue)
      → Hands (message_for (ok model) o a) s (to_kafka kafka py print settings model o a s)
  unfolding to_kafka message_for produce
  to_kafka-Hands model none a s = to_dlq-Hands "missing or non-int time_us" "missing_time_us" a s
  to_kafka-Hands model (some c) a s =
      let out : Outbox Queue = record s.outbox {
        checkpointer = register c s.outbox.checkpointer;
      } in
      Once-Hands (event_message kafka settings model c)
        (record_event (print.to_str (collection_of a.event)) a.wall) s out _ refl
        (enqueue-Once kafka (event_message kafka settings model c) out)

  route-Hands :
      (r : Result Event) (a : Arrival) (s : Session Queue)
      → is_io_error r ≡ false
      → Hands
          (message_for r (as_int (get "time_us" a.event)) a)
          s
          (route kafka py print settings r a s)
  unfolding route message_for
  route-Hands (ok model) a s h = to_kafka-Hands model (as_int (get "time_us" a.event)) a s
  route-Hands (raised (value_error x)) a s h = inl (inl refl, refl)
  route-Hands (raised validation_error) a s h = inl (inl refl, refl)
  route-Hands (raised (key_error k)) a s h =
      to_dlq-Hands (print.repr (key_error k)) (print.to_str (collection_of a.event)) a s
  route-Hands (raised type_error) a s h =
      to_dlq-Hands (print.repr type_error) (print.to_str (collection_of a.event)) a s
  route-Hands (raised buffer_error) a s h = cc
  route-Hands (raised postgres_error) a s h = inl (inr refl, refl)

  -- The end of a turn hands over nothing, and raises at most what Postgres raises.
  finish_turn-Hands :
      (a : Arrival) (s : Session Queue)
      → let (r, s') = finish_turn kafka py print settings a s in
        ((r ≡ ok tt) ⊎ (r ≡ raised postgres_error))
        × (kafka.taken s'.outbox.queue ≡ kafka.taken s.outbox.queue)
        × (s'.metrics ≡ s.metrics)
  unfolding finish_turn poll maybe_save_or_raise
  finish_turn-Hands a s =
      let (queue, rs) = kafka.serve 0 s.outbox.queue in
      let cp = run_callbacks rs s.outbox.checkpointer in
      elim (Bool-cases (due settings a.monotonic cp && not a.saves)) [
        | inl fails ↦ rw fails (inr refl, kafka.serve_taken 0 s.outbox.queue, refl)
        | inr works ↦ rw works (inl refl, kafka.serve_taken 0 s.outbox.queue, refl)
      ]

  finish_if_ok-Hands :
      (o : Option Message) (a : Arrival) (s : Session Queue) (p : Result (Unit {0}) × Session Queue)
      → Hands o s p
      → Hands o s (finish_if_ok kafka py print settings a p)
  finish_if_ok-Hands o a s (ok _, s') (inl (_, held)) =
      let (ends, taken, _) = finish_turn-Hands a s' in inl (ends, taken ∙ held)
  finish_if_ok-Hands o a s (ok _, s') (inr (fail, _)) = absurd (cc)
  finish_if_ok-Hands o a s (raised e, s') h = h

  -- A turn of the loop hands the message that its event calls for to librdkafka exactly once,
  -- and hands over nothing if the event calls for none, and goes on or raises what Postgres raises
  -- at the checkpoint; or it raises `BufferError`, with nothing handed over.
  pub turn-Hands :
      (a : Arrival) (s : Session Queue)
      → Hands
          (message_for (to_model py a.event) (as_int (get "time_us" a.event)) a)
          s
          (turn kafka py print settings a s)
  unfolding turn
  turn-Hands a s =
      finish_if_ok-Hands _ a s _
        (route-Hands (to_model py a.event) a s (to_model-is_io_error py a.event))

  -- An event that pydantic rejects is dropped: the turn goes on, unless Postgres raises, neither a topic nor the DLQ gets a message, and
  -- no DLQ count moves.
  pub rejected_event_dropped :
      (a : Arrival) (s : Session Queue)
      → to_model py a.event ≡ raised validation_error
      → let (r, s') = turn kafka py print settings a s in
        ((r ≡ ok tt) ⊎ (r ≡ raised postgres_error))
        × (kafka.taken s'.outbox.queue ≡ kafka.taken s.outbox.queue)
        × (s'.metrics.dlq ≡ s.metrics.dlq)
  unfolding turn route
  rejected_event_dropped a s e =
      let (ends, taken, metrics) = finish_turn-Hands a s in
      rw e (ends, taken, ap (λ (m : Metrics). m.dlq) metrics)

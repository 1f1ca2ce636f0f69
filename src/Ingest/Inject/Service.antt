-- ===== src/Ingest/Inject/Service.antt =====
-- The script ingest/dev_inject_dlq.py against the loop of ingest/main.py, on the same event.
use bluesky_trends.Prelude.{
  ℕ, ◌≡◌, refl, Option, some, ◌∷◌, ◌==◌, inl, inr, ◌⊎◌, ◌∙◌, if◌then◌else◌, arith,
}
use bluesky_trends.Exceptions.{
  Result, ok, raised, Exception, value_error, validation_error, key_error, type_error, buffer_error,
  postgres_error,
}
use bluesky_trends.Json.{get, as_int}
use bluesky_trends.Schemas.{Pydantic}
use bluesky_trends.Ingest.Config.{Settings}
use bluesky_trends.Ingest.Parse.{Event, to_model}
use bluesky_trends.Ingest.Kafka.{Message, Kafka}
use bluesky_trends.Ingest.Producer.{Outbox, flush, produce_dlq}
use bluesky_trends.Ingest.Producer.Enqueue.{Once, enqueue-Once}
use bluesky_trends.Ingest.Consume.{Printing, Arrival, Session, turn}
use bluesky_trends.Ingest.Consume.Routing.{dlq_for, message_for, rejected_event_dropped}
use bluesky_trends.Ingest.Inject.{
  Ending, returned, exit_1, crashed, flush_left, inject_error, on_result, inject,
}

module _ {Queue : Type 0} (kafka : Kafka Queue) (py : Pydantic) (print : Printing)
    (settings : Settings) where
  -- The script hands the message over once, and returns exactly if nothing is left in the queue
  -- after its flush; or it crashes with `BufferError` and has handed over nothing.
  abbrev pub Sends : Message → Outbox Queue → Ending × Outbox Queue → Type 0
  Sends m out p =
      ((sent : Outbox Queue) × (kafka.taken sent.queue ≡ m ∷ kafka.taken out.queue)
        × (kafka.taken p.1.queue ≡ m ∷ kafka.taken out.queue)
        × (p.0 ≡ (if (flush kafka 10000 sent).1 == 0 then returned else exit_1)))
      ⊎ ((p.0 ≡ crashed buffer_error) × (kafka.taken p.1.queue ≡ kafka.taken out.queue))

  flush_left-Sends :
      (m : Message) (out : Outbox Queue) (p : Result (Unit {0}) × Outbox Queue)
      → Once kafka 5 m out p
      → Sends m out (flush_left kafka py print settings p)
  unfolding flush
  flush_left-Sends m out (ok _, out') (inl (_, held)) =
      inl (out', held, kafka.drain_taken 10000 out'.queue ∙ held, refl)
  flush_left-Sends m out (ok _, out') (inr (fail, _, _)) = absurd (cc)
  flush_left-Sends m out (raised e, out') (inl (done, _)) = absurd (cc)
  flush_left-Sends m out (raised e, out') (inr (fail, held, _)) = inr (ground arith, held)

  inject_error-Sends :
      (e : Exception) (a : Arrival) (out : Outbox Queue)
      → Sends
          (dlq_for kafka py print settings (print.repr e) a)
          out
          (inject_error kafka py print settings e a.event a.wall out)
  unfolding inject_error produce_dlq dlq_for
  inject_error-Sends e a out = flush_left-Sends _ out _ (enqueue-Once kafka _ out)

  same_message :
      (e : Exception) (a : Arrival) (out : Outbox Queue) (m : Message)
      → some (dlq_for kafka py print settings (print.repr e) a) ≡ some m
      → Sends m out (inject_error kafka py print settings e a.event a.wall out)
  same_message e a out m same =
      let same' : dlq_for kafka py print settings (print.repr e) a ≡ m = cc in
      rw (← same') (inject_error-Sends e a out)

  on_result-Sends :
      (r : Result Event) (o : Option ℕ) (a : Arrival) (out : Outbox Queue) (e : Exception)
      (m : Message)
      → r ≡ raised e
      → message_for kafka py print settings r o a ≡ some m
      → Sends m out (on_result kafka py print settings r a.event a.wall out)
  unfolding message_for
  on_result-Sends (ok model) o a out e m failed sent = absurd (cc)
  on_result-Sends (raised (value_error x)) o a out e m failed sent = absurd (cc)
  on_result-Sends (raised validation_error) o a out e m failed sent = absurd (cc)
  on_result-Sends (raised (key_error k)) o a out e m failed sent =
      same_message (key_error k) a out m sent
  on_result-Sends (raised type_error) o a out e m failed sent = same_message type_error a out m sent
  on_result-Sends (raised buffer_error) o a out e m failed sent = absurd (cc)
  on_result-Sends (raised postgres_error) o a out e m failed sent = absurd (cc)

  -- For an event that `to_model` refuses and the loop sends to the DLQ, the script hands over the
  -- message that the loop hands over for the event, once, and returns exactly if the flush leaves
  -- nothing in the queue; or it crashes with `BufferError`, with nothing handed over.
  pub inject-Sends :
      (a : Arrival) (out : Outbox Queue) (e : Exception) (m : Message)
      → to_model py a.event ≡ raised e
      → message_for kafka py print settings (to_model py a.event) (as_int (get "time_us" a.event)) a
        ≡ some m
      → Sends m out (inject kafka py print settings a.event a.wall out)
  unfolding inject
  inject-Sends a out e m = on_result-Sends (to_model py a.event) _ a out e m

  -- The script is not the service on an event that pydantic rejects: the loop hands over nothing
  -- and goes on, and the script hands an envelope of the event to the DLQ, unless the queue stays
  -- full.
  pub inject_rejected :
      (a : Arrival) (s : Session Queue) (out : Outbox Queue)
      → to_model py a.event ≡ raised validation_error
      → let (r, s') = turn kafka py print settings a s in
        (((r ≡ ok tt) ⊎ (r ≡ raised postgres_error))
          × (kafka.taken s'.outbox.queue ≡ kafka.taken s.outbox.queue))
        × Sends
            (dlq_for kafka py print settings (print.repr validation_error) a)
            out
            (inject kafka py print settings a.event a.wall out)
  unfolding inject
  inject_rejected a s out e =
      let (goes_on, held, _) = rejected_event_dropped kafka py print settings a s e in
      ((goes_on, held), rw e (inject_error-Sends validation_error a out))

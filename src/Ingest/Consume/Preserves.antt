-- ===== src/Ingest/Consume/Preserves.antt =====
-- What the calls of librdkafka keep of the queue, the ingest loop of ingest/main.py keeps.
use bluesky_trends.Prelude.{
  ℕ, zero, suc, ◌≡◌, String, Bool, true, false, Option, none, some, List, [], ◌∷◌, inl, inr,
  if◌then◌else◌, Option-cases, Bool-cases, ◌&&◌, not,
}
use bluesky_trends.Exceptions.{Result, ok, raised, is_value_error, is_malformed_error}
use bluesky_trends.Json.{get, as_int}
use bluesky_trends.Schemas.{Pydantic}
use bluesky_trends.Ingest.Config.{Settings}
use bluesky_trends.Ingest.Checkpointer.{
  register, due, unsaved, maybe_save_or_raise, final_save_or_raise,
}
use bluesky_trends.Ingest.Parse.{Event, to_model}
use bluesky_trends.Ingest.Metrics.{Metrics, record_event, record_dlq}
use bluesky_trends.Ingest.Kafka.{Message, Kafka}
use bluesky_trends.Ingest.Producer.{
  Outbox, run_callbacks, poll, flush, attempts, enqueue, produce, produce_dlq, dlq_message,
  event_message,
}
use bluesky_trends.Ingest.Consume.{
  Printing, Arrival, Session, with_outbox, to_dlq, to_kafka, route, finish_turn, finish_if_ok, turn,
  consume, drain_session, collection_of, serialize_raw,
}

module _ {Queue : Type 0} (kafka : Kafka Queue) (P : Queue → Type 0)
    (offers : (m : Message) (q q' : Queue) → kafka.offer m q ≡ some q' → P q → P q')
    (serves : (t : ℕ) (q : Queue) → P q → P (kafka.serve t q).0)
    (drains : (t : ℕ) (q : Queue) → P q → P (kafka.drain t q).0) where
  attempts_keep :
      (n : ℕ) (m : Message) (out : Outbox Queue) → P out.queue → P (attempts kafka n m out).1.queue
  unfolding attempts poll
  attempts_keep zero m out h = elim (Option-cases (kafka.offer m out.queue)) [
    | inl full ↦ rw (full, attempts) h
    | inr (q, room) ↦ rw (room, attempts) (offers m out.queue q room h)
  ]
  attempts_keep (suc n) m out h = elim (Option-cases (kafka.offer m out.queue)) [
    | inl full ↦
        rw (full, attempts) (attempts_keep n m (poll kafka 500 out) (serves 500 out.queue h))
    | inr (q, room) ↦ rw (room, attempts) (offers m out.queue q room h)
  ]

  with_outbox_keeps :
      (f : Metrics → Metrics) (s : Session Queue) (p : Result (Unit {0}) × Outbox Queue)
      → P p.1.queue
      → P (with_outbox f s p).1.outbox.queue
  with_outbox_keeps f s (ok _, out) h = h
  with_outbox_keeps f s (raised e, out) h = h

  module _ (py : Pydantic) (print : Printing) (settings : Settings) where
    produce_dlq_keeps :
        (raw_payload error intended_topic : String) (received_at : ℕ) (out : Outbox Queue)
        → P out.queue
        → P (produce_dlq kafka settings raw_payload error intended_topic received_at out).1.queue
    unfolding produce_dlq enqueue
    produce_dlq_keeps raw_payload error intended_topic received_at out h =
        attempts_keep 5
          (dlq_message kafka settings (record {
            raw_payload = raw_payload;
            error = error;
            intended_topic = intended_topic;
            received_at = received_at;
          }))
          out h

    produce_keeps :
        (model : Event) (cursor : ℕ) (out : Outbox Queue)
        → P out.queue
        → P (produce kafka settings model cursor out).1.queue
    unfolding produce enqueue
    produce_keeps model cursor out h =
        attempts_keep 5 (event_message kafka settings model cursor) out h

    to_dlq_keeps :
        (error reason : String) (a : Arrival) (s : Session Queue)
        → P s.outbox.queue
        → P (to_dlq kafka py print settings error reason a s).1.outbox.queue
    unfolding to_dlq
    to_dlq_keeps error reason a s h = with_outbox_keeps (record_dlq reason) s _ (
        produce_dlq_keeps (serialize_raw print a.event) error (print.to_str (collection_of a.event))
          a.wall s.outbox h)

    to_kafka_keeps :
        (model : Event) (o : Option ℕ) (a : Arrival) (s : Session Queue)
        → P s.outbox.queue
        → P (to_kafka kafka py print settings model o a s).1.outbox.queue
    unfolding to_kafka
    to_kafka_keeps model none a s h =
        to_dlq_keeps "missing or non-int time_us" "missing_time_us" a s h
    to_kafka_keeps model (some c) a s h =
        with_outbox_keeps (record_event (print.to_str (collection_of a.event)) a.wall) s _ (
          produce_keeps model c
            (record s.outbox { checkpointer = register c s.outbox.checkpointer }) h)

    if_keeps :
        (b : Bool) (p q : Result (Unit {0}) × Session Queue)
        → P p.1.outbox.queue
        → P q.1.outbox.queue
        → P (if b then p else q).1.outbox.queue
    if_keeps true p q x y = x
    if_keeps false p q x y = y

    pub route_keeps :
        (r : Result Event) (a : Arrival) (s : Session Queue)
        → P s.outbox.queue
        → P (route kafka py print settings r a s).1.outbox.queue
    unfolding route
    route_keeps (ok model) a s h = to_kafka_keeps model (as_int (get "time_us" a.event)) a s h
    route_keeps (raised e) a s h = if_keeps (is_value_error e) _ _ h (
        if_keeps (is_malformed_error e) _ _
          (to_dlq_keeps (print.repr e) (print.to_str (collection_of a.event)) a s h) h)

    finish_if_ok_keeps :
        (a : Arrival) (p : Result (Unit {0}) × Session Queue)
        → P p.1.outbox.queue
        → P (finish_if_ok kafka py print settings a p).1.outbox.queue
    unfolding finish_turn poll maybe_save_or_raise
    finish_if_ok_keeps a (ok _, s) h =
        let (queue, rs) = kafka.serve 0 s.outbox.queue in
        let cp = run_callbacks rs s.outbox.checkpointer in
        elim (Bool-cases (due settings a.monotonic cp && not a.saves)) [
          | inl fails ↦ rw fails (serves 0 s.outbox.queue h)
          | inr works ↦ rw works (serves 0 s.outbox.queue h)
        ]
    finish_if_ok_keeps a (raised e, s) h = h

    turn_keeps :
        (a : Arrival) (s : Session Queue)
        → P s.outbox.queue
        → P (turn kafka py print settings a s).1.outbox.queue
    unfolding turn
    turn_keeps a s h = finish_if_ok_keeps a _ (route_keeps (to_model py a.event) a s h)

    next_keeps :
        (r : Result (Unit {0})) (p : Result (Unit {0}) × Session Queue) (s : Session Queue)
        → P p.1.outbox.queue
        → P s.outbox.queue
        → P
            (elim r as (λ _. Result (Unit {0}) × Session Queue) [
              | ok _ ↦ p
              | raised e ↦ (raised e, s)
            ]).1.outbox.queue
    next_keeps (ok _) p s x y = x
    next_keeps (raised e) p s x y = y

    pub consume_preserves :
        (l : List Arrival) (s : Session Queue)
        → P s.outbox.queue
        → P (consume kafka py print settings l s).1.outbox.queue
    unfolding consume
    consume_preserves [] s h = h
    consume_preserves (a ∷ rest) s h =
        let t = turn kafka py print settings a s in
        let h' = turn_keeps a s h in
        if_keeps a.stop _ _ h (
          next_keeps t.0 (consume kafka py print settings rest t.1) t.1
            (consume_preserves rest t.1 h') h')

    pub drain_session_preserves :
        (wall : ℕ) (saves : Bool) (s : Session Queue)
        → P s.outbox.queue
        → P (drain_session kafka py print settings wall saves s).1.outbox.queue
    unfolding drain_session flush final_save_or_raise
    drain_session_preserves wall saves s h =
        let (queue, rs, left) = kafka.drain 30000 s.outbox.queue in
        let cp = run_callbacks rs s.outbox.checkpointer in
        elim (Bool-cases (unsaved cp && not saves)) [
          | inl fails ↦ rw fails (drains 30000 s.outbox.queue h)
          | inr works ↦ rw works (drains 30000 s.outbox.queue h)
        ]

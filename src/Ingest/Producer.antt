-- ===== src/Ingest/Producer.antt =====
-- ingest/producer.py: `IngestProducer` over the queue of librdkafka. The delivery callbacks call
-- the checkpointer, so a method that polls also moves the checkpointer.
pub mod Enqueue
pub mod Order
use bluesky_trends.Prelude.{ℕ, zero, suc, String, Bool, Option, none, some, List, [], ◌∷◌}
use bluesky_trends.Json.{Fields}
use bluesky_trends.Exceptions.{Result, ok, raised, buffer_error}
use bluesky_trends.Schemas.{DlqEnvelope}
use bluesky_trends.Schemas.Dump.{dump_post, dump_like, dump_follow, dump_dlq}
use bluesky_trends.Ingest.Config.{Settings}
use bluesky_trends.Ingest.Checkpointer.{Checkpointer, on_ack}
use bluesky_trends.Ingest.Parse.{Event, post, like, follow}
use bluesky_trends.Ingest.Kafka.{Callback, cursor_acked, dlq_logged, Message, Report, Kafka}

-- The producer's queue and the checkpointer that its callbacks reach.
pub record Outbox (Queue : Type 0) : Type 0 where
  pub queue : Queue
  pub checkpointer : Checkpointer

-- The callbacks `_cb` of `produce` and of `produce_dlq`.
unfoldable pub run_callback : Report → Checkpointer → Checkpointer
run_callback (cursor_acked cursor, success) cp = on_ack success cursor cp
run_callback (dlq_logged, success) cp = cp

unfoldable pub run_callbacks : List Report → Checkpointer → Checkpointer
unfolding run_callback
run_callbacks [] cp = cp
run_callbacks (r ∷ rs) cp = run_callbacks rs (run_callback r cp)

-- The topic of a model's class in `_serializers`.
abbrev pub topic_of : Settings → Event → String
topic_of settings (post _) = settings.topic_posts
topic_of settings (like _) = settings.topic_likes
topic_of settings (follow _) = settings.topic_follows

-- `model_dump` of `_to_avro_dict`.
abbrev pub dump : Event → Fields
dump (post m) = dump_post m
dump (like m) = dump_like m
dump (follow m) = dump_follow m

abbrev pub did_of : Event → String
did_of (post m) = m.did
did_of (like m) = m.did
did_of (follow m) = m.did

module _ {Queue : Type 0} (kafka : Kafka Queue) where
  open kafka use {offer, serve, drain, serialize}

  -- `poll`
  unfoldable pub poll : ℕ → Outbox Queue → Outbox Queue
  poll timeout out =
      let (queue, reports) = serve timeout out.queue in
      record { queue = queue; checkpointer = run_callbacks reports out.checkpointer }

  -- `flush`
  unfoldable pub flush : ℕ → Outbox Queue → Outbox Queue × ℕ
  flush timeout out =
      let (queue, reports, left) = drain timeout out.queue in
      (record { queue = queue; checkpointer = run_callbacks reports out.checkpointer }, left)

  -- `n` attempts that poll on `BufferError`, and the final one.
  unfoldable pub attempts : ℕ → Message → Outbox Queue → Result (Unit {0}) × Outbox Queue
  attempts zero m out = elim (offer m out.queue) [
    | none ↦ (raised buffer_error, out)
    | some queue ↦ (ok tt, record out { queue = queue })
  ]
  attempts (suc n) m out = elim (offer m out.queue) [
    | none ↦ attempts n m (poll 500 out)
    | some queue ↦ (ok tt, record out { queue = queue })
  ]

  -- `_enqueue`
  unfoldable pub enqueue : Message → Outbox Queue → Result (Unit {0}) × Outbox Queue
  enqueue m out = attempts 5 m out

  module _ (settings : Settings) where
    abbrev pub event_message : Event → ℕ → Message
    event_message model cursor = record {
      topic = topic_of settings model;
      key = some (did_of model);
      value = serialize (topic_of settings model) (dump model);
      on_delivery = cursor_acked cursor;
    }

    unfoldable pub produce : Event → ℕ → Outbox Queue → Result (Unit {0}) × Outbox Queue
    produce model cursor out = enqueue (event_message model cursor) out

    abbrev pub dlq_message : DlqEnvelope → Message
    dlq_message envelope = record {
      topic = settings.topic_dlq;
      key = none;
      value = serialize settings.topic_dlq (dump_dlq envelope);
      on_delivery = dlq_logged;
    }

    -- `produce_dlq`, at the wall clock's time `received_at`.
    unfoldable pub produce_dlq :
        String → String → String → ℕ → Outbox Queue → Result (Unit {0}) × Outbox Queue
    produce_dlq raw_payload error intended_topic received_at out =
        enqueue
          (dlq_message (record {
            raw_payload = raw_payload;
            error = error;
            intended_topic = intended_topic;
            received_at = received_at;
          }))
          out

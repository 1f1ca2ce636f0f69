-- ===== src/Dagster/Dlq.antt =====
-- dagster/bsky_dagster/dlq.py: the DLQ producer of the archiver, over the interface of librdkafka.
pub mod Send
use bluesky_trends.Prelude.{ℕ, String, Option, none, some}
use bluesky_trends.Schemas.{DlqEnvelope}
use bluesky_trends.Schemas.Dump.{dump_dlq}
use bluesky_trends.Ingest.Kafka.{Message, Kafka, dlq_logged}
use bluesky_trends.Dagster.Config.{Settings}
use bluesky_trends.Dagster.Decode.{DlqRow}

module _ {Queue : Type 0} (kafka : Kafka Queue) (settings : Settings) where
  abbrev pub envelope_of : DlqRow → String → ℕ → DlqEnvelope
  envelope_of row intended_topic received_at = record {
    raw_payload = row.raw_payload;
    error = row.error;
    intended_topic = intended_topic;
    received_at = received_at;
  }

  abbrev pub dlq_message : DlqRow → String → ℕ → Message
  dlq_message row intended_topic received_at = record {
    topic = settings.topic_dlq;
    key = none;
    value =
        kafka.serialize settings.topic_dlq (dump_dlq (envelope_of row intended_topic received_at));
    on_delivery = dlq_logged;
  }

  -- `send`: `none` is `BufferError`, which ends the run.
  unfoldable pub send : DlqRow → String → ℕ → Queue → Option Queue
  send row intended_topic received_at queue =
      elim (kafka.offer (dlq_message row intended_topic received_at) queue) [
        | none ↦ none
        | some queue' ↦ some (kafka.serve 0 queue').0
      ]

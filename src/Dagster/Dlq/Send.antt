-- ===== src/Dagster/Dlq/Send.antt =====
-- `send` of dagster/bsky_dagster/dlq.py against the messages that librdkafka has taken.
use bluesky_trends.Prelude.{ℕ, String, ◌≡◌, refl, ◌∙◌, none, some, ◌∷◌, ◌⊎◌, inl, inr, Option-cases}
use bluesky_trends.Ingest.Kafka.{Kafka}
use bluesky_trends.Dagster.Config.{Settings}
use bluesky_trends.Dagster.Decode.{DlqRow}
use bluesky_trends.Dagster.Dlq.{dlq_message, send}

-- `send` hands the record, in its envelope with the intended topic, to librdkafka exactly once; or
-- the local queue was full and it raises `BufferError`.
pub send_once :
    {Queue : Type 0} (kafka : Kafka Queue) (settings : Settings) (row : DlqRow) (topic : String)
    (at : ℕ) (q : Queue)
    → let m = dlq_message kafka settings row topic at in
      ((q' : Queue) × (send kafka settings row topic at q ≡ some q')
        × (kafka.taken q' ≡ m ∷ kafka.taken q))
      ⊎ ((send kafka settings row topic at q ≡ none) × (kafka.offer m q ≡ none))
unfolding send
send_once kafka settings row topic at q =
    elim (Option-cases (kafka.offer (dlq_message kafka settings row topic at) q)) [
      | inl full ↦ inr (rw (full, send) refl, full)
      | inr (q', room) ↦ inl (
        (kafka.serve 0 q').0,
        rw (room, send) refl,
        kafka.serve_taken 0 q' ∙ kafka.offer_taken _ q q' room,
      )
    ]

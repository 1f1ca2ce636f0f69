-- ===== src/Ingest/Inject.antt =====
-- ingest/dev_inject_dlq.py: the script that sends one malformed event down the DLQ path. It has no
-- checkpointer; the one in its `Outbox` is reached by no callback of it.
pub mod Service
use bluesky_trends.Prelude.{ℕ, Bool, true, false, ◌==◌, if◌then◌else◌}
use bluesky_trends.Json.{Fields, Value}
use bluesky_trends.Exceptions.{Result, ok, raised, Exception, is_malformed_error}
use bluesky_trends.Schemas.{Pydantic}
use bluesky_trends.Ingest.Config.{Settings}
use bluesky_trends.Ingest.Parse.{Event, to_model}
use bluesky_trends.Ingest.Kafka.{Kafka}
use bluesky_trends.Ingest.Producer.{Outbox, flush, produce_dlq}
use bluesky_trends.Ingest.Consume.{Printing, collection_of, serialize_raw}

-- How `main` ends: it returns, it calls `sys.exit(1)`, or an exception leaves it.
pub data Ending : Type 0 where
  returned exit_1 : Ending
  crashed : Exception → Ending

-- `_collection`, which reads the event as the loop does.
abbrev pub collection : Fields → Value
collection event = collection_of event

module _ {Queue : Type 0} (kafka : Kafka Queue) (py : Pydantic) (print : Printing)
    (settings : Settings) where
  abbrev pub flush_left : Result (Unit {0}) × Outbox Queue → Ending × Outbox Queue
  flush_left (raised e, out) = (crashed e, out)
  flush_left (ok _, out) =
      let (out', remaining) = flush kafka 10000 out in
      (if remaining == 0 then returned else exit_1, out')

  -- The `except` branch.
  unfoldable pub inject_error : Exception → Fields → ℕ → Outbox Queue → Ending × Outbox Queue
  inject_error e event wall out = flush_left (
      produce_dlq kafka settings (serialize_raw print event) (print.repr e)
        (print.to_str (collection event)) wall out)

  abbrev pub on_result : Result Event → Fields → ℕ → Outbox Queue → Ending × Outbox Queue
  on_result (ok _) event wall out = (exit_1, out)
  on_result (raised e) event wall out =
      let sent = inject_error e event wall out in
      if is_malformed_error e then sent else (crashed e, out)

  -- `main`, on the event of the fixture, at the wall clock's time of the envelope.
  unfoldable pub inject : Fields → ℕ → Outbox Queue → Ending × Outbox Queue
  inject event wall out = on_result (to_model py event) event wall out

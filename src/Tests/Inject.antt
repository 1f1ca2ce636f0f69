-- ===== src/Tests/Inject.antt =====
-- The injection script on an event that pydantic rejects.
use bluesky_trends.Prelude.{◌≡◌, refl, ◌⊎◌}
use bluesky_trends.Json.{get, find}
use bluesky_trends.Exceptions.{ok, raised, validation_error, postgres_error}
use bluesky_trends.Ingest.Config.{default_settings}
use bluesky_trends.Ingest.Checkpointer.{new_checkpointer}
use bluesky_trends.Ingest.Parse.{by_collection, to_post, to_model}
use bluesky_trends.Ingest.Producer.{Outbox}
use bluesky_trends.Ingest.Consume.{Session, Arrival, new_session, turn}
use bluesky_trends.Ingest.Consume.Routing.{dlq_for}
use bluesky_trends.Ingest.Inject.{inject}
use bluesky_trends.Ingest.Inject.Service.{Sends, inject_rejected}
use bluesky_trends.Samples.{pydantic, printing, rejected_event, arrival, empty_store}
use bluesky_trends.Samples.Broker.{Queue, new_queue, broker}

abbrev out : Outbox Queue
out = record { queue = new_queue; checkpointer = new_checkpointer 0 }

abbrev rejected_arrival : Arrival
rejected_arrival = arrival rejected_event 1

abbrev session : Session Queue
session = new_session 0 new_queue empty_store

rejected : to_model pydantic rejected_event ≡ raised validation_error
unfolding to_model get find by_collection to_post
rejected = refl

inject_rejected_example :
    let (r, s') = turn broker pydantic printing default_settings rejected_arrival session in
    (((r ≡ ok tt) ⊎ (r ≡ raised postgres_error))
      × (broker.taken s'.outbox.queue ≡ broker.taken session.outbox.queue))
    × Sends broker pydantic printing default_settings
        (dlq_for broker pydantic printing default_settings "error" rejected_arrival)
        out
        (inject broker pydantic printing default_settings rejected_event 1 out)
inject_rejected_example =
    inject_rejected broker pydantic printing default_settings rejected_arrival session out rejected

-- ===== src/Tests/Reconnects.antt =====
-- The ingest loop over a client that reconnects, at a concrete input.
use bluesky_trends.Prelude.{ℕ, none, ◌≡◌, refl, ◌⊎◌, true, false, Option, some, List, [], ◌∷◌}
use bluesky_trends.Prelude.StrDict
use bluesky_trends.Json.{get, find}
use bluesky_trends.Ingest.Config.{default_settings}
use bluesky_trends.Ingest.CursorStore.{load}
use bluesky_trends.Ingest.Checkpointer.Advance.{above}
use bluesky_trends.Ingest.Parse.{reply, by_collection, to_post, to_model}
use bluesky_trends.Ingest.Consume.{Arrival, run}
use bluesky_trends.Ingest.Consume.Rising.{arrives}
use bluesky_trends.Ingest.Consume.Reconnects.{asked, SendsInTime, reconnects_no_loss}
use bluesky_trends.Ingest.Jetstream.{
  Client, Connection, closed, receive, receive_all, connect, events, build_url, new_client,
}
use bluesky_trends.Samples.{pydantic, printing, post_event, arrival, empty_store}
use bluesky_trends.Samples.Broker.{new_queue, broker}

-- Two connections: the second sends the last event of the first again.
abbrev connections : List Connection
connections =
    record { opens = true; events = post_event 5 ∷ post_event 8 ∷ []; ends = closed }
    ∷ record { opens = true; events = post_event 8 ∷ post_event 9 ∷ []; ends = closed }
    ∷ []

abbrev arrivals : Option ℕ → List Arrival
arrivals from =
    arrival (post_event 5) 1
    ∷ arrival (post_event 8) 2
    ∷ arrival (post_event 8) 3
    ∷ arrival (post_event 9) 4
    ∷ []

abbrev client : Client
client = record {
  attempt = 0;
  latest_cursor = some 9;
  requests = build_url default_settings none ∷ build_url default_settings (some 8) ∷ [];
  yielded = post_event 5 ∷ post_event 8 ∷ post_event 8 ∷ post_event 9 ∷ [];
  delays = [];
}

yields :
    events default_settings connections (new_client (load default_settings.stream_name empty_store))
    ≡ some client
unfolding events connect receive_all receive get find build_url load StrDict.lookup
yields = refl

sends : SendsInTime (asked client.requests) connections
unfolding build_url get find
sends = ((refl, (refl, tt)), ((refl, (refl, tt)), tt))

arriving : arrives pydantic 9 (arrivals (load default_settings.stream_name empty_store)) ≡ true
unfolding arrives load StrDict.lookup to_model get find by_collection to_post reply
arriving = refl

started_below : above (load default_settings.stream_name empty_store) 9 ≡ true
unfolding load StrDict.lookup
started_below = refl

reconnects_no_loss_example :
    let s =
      (run broker pydantic printing default_settings 0 9 false new_queue empty_store arrivals).1 in
    (broker.stored 9 s.outbox.queue ≡ true)
    ⊎ (above (load default_settings.stream_name s.store) 9 ≡ true)
reconnects_no_loss_example =
    reconnects_no_loss broker pydantic printing default_settings 0 9 false new_queue empty_store
      arrivals connections client 9 yields sends refl arriving started_below

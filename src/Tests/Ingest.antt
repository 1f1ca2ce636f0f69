-- ===== src/Tests/Ingest.antt =====
-- The theorems on the ingest loop, its producer and its client at concrete inputs.
use mathlib.Core.Option
use bluesky_trends.Prelude.{
  ◌^◌, ℕ, ◌≤◌, ◌≡◌, refl, ◌↔◌, ◌⊎◌, true, false, Option, none, some, List, [], ◌∷◌, arith,
}
use bluesky_trends.Prelude.StrDict
use bluesky_trends.Json.{get, find, as_int}
use bluesky_trends.Exceptions.{ok, raised, validation_error, postgres_error}
use bluesky_trends.Ingest.Config.{Ratio, default_settings}
use bluesky_trends.Ingest.CursorStore.{load}
use bluesky_trends.Ingest.Checkpointer.Advance.{above}
use bluesky_trends.Ingest.Parse.{post, reply, by_collection, to_post, to_model}
use bluesky_trends.Ingest.Producer.{enqueue, event_message}
use bluesky_trends.Ingest.Producer.Enqueue.{Once, enqueue-Once}
use bluesky_trends.Ingest.Consume.{Arrival, Session, new_session, turn, run}
use bluesky_trends.Ingest.Consume.Rising.{Rising-none, Rising, arrives}
use bluesky_trends.Ingest.Consume.NoLoss.{run_no_loss}
use bluesky_trends.Ingest.Consume.ReadsAll.{final_cursor}
use bluesky_trends.Ingest.Consume.CatchesUp.{run_catches_up, each_cursor}
use bluesky_trends.Ingest.Consume.Routing.{Hands, message_for, turn-Hands, rejected_event_dropped}
use bluesky_trends.Ingest.Jetstream.{
  base_delay, backoff_delay, Client, Connection, closed, raises, receive, receive_all, connect,
  events, build_url, new_client,
}
use bluesky_trends.Ingest.Jetstream.Backoff.{Within, backoff_delay_bounds, backoff_delay_overflows}
use bluesky_trends.Ingest.Jetstream.Resume.{Stands, cursors, all_brought, events_resume}
use bluesky_trends.Samples.{pydantic, printing, post_event, rejected_event, arrival, a_post}
use bluesky_trends.Samples.Broker.{Queue, new_queue, broker, broker-Healthy}
use bluesky_trends.Samples.{empty_store}

abbrev start : Session Queue
start = new_session 0 new_queue empty_store

enqueue-Once_example :
    Once broker 5
      (event_message broker default_settings (post a_post) 5)
      start.outbox
      (enqueue broker (event_message broker default_settings (post a_post) 5) start.outbox)
enqueue-Once_example =
    enqueue-Once broker (event_message broker default_settings (post a_post) 5) start.outbox

turn-Hands_example :
    let a = arrival (post_event 5) 1 in
    Hands broker pydantic printing default_settings
      (message_for broker pydantic printing default_settings
        (to_model pydantic a.event)
        (as_int (get "time_us" a.event))
        a)
      start
      (turn broker pydantic printing default_settings a start)
turn-Hands_example =
    turn-Hands broker pydantic printing default_settings (arrival (post_event 5) 1) start

rejected : to_model pydantic rejected_event ≡ raised validation_error
unfolding to_model get find by_collection to_post
rejected = refl

rejected_event_dropped_example :
    let (r, s') = turn broker pydantic printing default_settings (arrival rejected_event 1) start in
    ((r ≡ ok tt) ⊎ (r ≡ raised postgres_error))
    × (broker.taken s'.outbox.queue ≡ broker.taken start.outbox.queue)
    × (s'.metrics.dlq ≡ start.metrics.dlq)
rejected_event_dropped_example =
    rejected_event_dropped broker pydantic printing default_settings (arrival rejected_event 1)
      start rejected

-- Two posts, the first of which is replayed, and a record that pydantic rejects.
abbrev arrivals : Option ℕ → List Arrival
arrivals from =
    arrival (post_event 5) 1
    ∷ arrival (post_event 5) 2
    ∷ arrival rejected_event 3
    ∷ arrival (post_event 8) 4
    ∷ []

abbrev start_cursor : Option ℕ
start_cursor = load default_settings.stream_name empty_store

rising : Rising pydantic start_cursor (arrivals start_cursor)
unfolding load StrDict.lookup to_model get find by_collection to_post reply
rising = (refl, (refl, (refl, (refl, tt))))

arriving : arrives pydantic 8 (arrivals start_cursor) ≡ true
unfolding arrives load StrDict.lookup to_model get find by_collection to_post reply
arriving = refl

started_below : above start_cursor 8 ≡ true
unfolding load StrDict.lookup
started_below = refl

run_no_loss_example :
    let s =
      (run broker pydantic printing default_settings 0 9 false new_queue empty_store arrivals).1 in
    (broker.stored 8 s.outbox.queue ≡ true)
    ⊎ (above (load default_settings.stream_name s.store) 8 ≡ true)
run_no_loss_example =
    run_no_loss broker pydantic printing default_settings 0 9 false new_queue empty_store arrivals 8
      (Rising-none pydantic start_cursor (arrivals start_cursor) rising) arriving started_below

run_catches_up_example :
    let p = run broker pydantic printing default_settings 0 9 true new_queue empty_store arrivals in
    (p.0 ≡ ok tt)
    × (each_cursor pydantic (λ c. broker.stored c p.1.outbox.queue) (arrivals start_cursor) ≡ true)
    × (load default_settings.stream_name p.1.store
        ≡ final_cursor pydantic start_cursor (arrivals start_cursor))
run_catches_up_example =
    run_catches_up broker broker-Healthy pydantic printing default_settings 0 9 new_queue
      empty_store arrivals rising refl

backoff_delay_bounds_example :
    (d : Ratio) × (backoff_delay 3 default_settings (record { num = 1; den = 2 }) ≡ some d)
    × Within
        (base_delay default_settings (2 ^ 3))
        default_settings.backoff_jitter_ratio
        (record { num = 1; den = 2 })
        d
    × (base_delay default_settings (2 ^ 3) ≤ 60000)
backoff_delay_bounds_example =
    backoff_delay_bounds 3 default_settings (record { num = 1; den = 2 }) (omega arith)
      (omega arith)

backoff_delay_overflows_example :
    (backoff_delay 1024 default_settings (record { num = 1; den = 2 }) ≡ none) ↔ (1024 ≤ 1024)
backoff_delay_overflows_example =
    backoff_delay_overflows 1024 default_settings (record { num = 1; den = 2 })

-- A connection that brings two posts and is closed, and one that does not open.
abbrev connections : List Connection
connections =
    record { opens = true; events = post_event 5 ∷ post_event 8 ∷ []; ends = closed }
    ∷ record { opens = false; events = []; ends = raises (record { num = 1; den = 2 }) }
    ∷ []

events_resume_example :
    (c' : Client) × (events default_settings connections (new_client (some 3)) ≡ some c')
    × Stands default_settings
        (cursors (some 3) connections)
        (all_brought connections)
        (some 3)
        (new_client (some 3))
        c'
events_resume_example =
    events_resume default_settings connections (new_client (some 3)) (omega arith)

-- The second connection asks for the cursor of the last event.
client_after :
    Option.map
      (λ (c : Client). c.requests)
      (events default_settings connections (new_client (some 3)))
    ≡ some (build_url default_settings (some 3) ∷ build_url default_settings (some 8) ∷ [])
unfolding events connect receive_all receive backoff_delay get find build_url
client_after = refl

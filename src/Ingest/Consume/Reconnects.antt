-- ===== src/Ingest/Consume/Reconnects.antt =====
-- The loop of ingest/main.py over the client of ingest/jetstream_client.py, which reconnects and so
-- reads the event of its latest cursor again.
use bluesky_trends.Prelude.{
  String, ap, ℕ, ◌≡◌, refl, Bool, true, Option, none, some, List, [], ◌∷◌, ◌++◌, ◌⊎◌, arith,
}
use bluesky_trends.Exceptions.{Result, ok, raised}
use bluesky_trends.Json.{Value, Fields, get, as_int}
use bluesky_trends.Schemas.{Pydantic}
use bluesky_trends.Ingest.Config.{Settings}
use bluesky_trends.Ingest.CursorStore.{CursorStore, load}
use bluesky_trends.Ingest.Parse.{Event, to_model}
use bluesky_trends.Ingest.Checkpointer.Advance.{above}
use bluesky_trends.Ingest.Kafka.{Kafka}
use bluesky_trends.Ingest.Jetstream.{build_url, Connection, Client, or_kept, new_client, events}
use bluesky_trends.Ingest.Jetstream.Resume.{
  brought, all_brought, last_cursor, cursors, urls, events-Stands,
}
use bluesky_trends.Ingest.Consume.{Printing, Arrival, run}
use bluesky_trends.Ingest.Consume.Follows.{cursor_of, taken_cursor}
use bluesky_trends.Ingest.Consume.Rising.{rises, next_floor, Rising, Rising-none, arrives}
use bluesky_trends.Ingest.Consume.NoLoss.{run_no_loss}

-- The events come in the order of their `time_us`, from the cursor on, whose event may come again.
abbrev pub InTime : Option ℕ → List Fields → Type 0
InTime floor [] = Unit
InTime floor (event ∷ rest) =
    (rises floor (as_int (get "time_us" event)) ≡ true)
    × InTime (or_kept floor (as_int (get "time_us" event))) rest

-- The cursors of the requests of a client.
abbrev pub asked : List (String × List (String × String) × Option ℕ) → List (Option ℕ)
asked [] = []
asked ((url, parameters, cursor) ∷ rest) = cursor ∷ asked rest

-- Jetstream sends the events of each connection in this order, from the cursor that it is asked
-- for: one cursor for each connection.
abbrev pub SendsInTime : List (Option ℕ) → List Connection → Type 0
SendsInTime (cursor ∷ cursors) (x ∷ rest) = InTime cursor (brought x) × SendsInTime cursors rest
SendsInTime _ _ = Unit

abbrev pub events_of : List Arrival → List Fields
events_of [] = []
events_of (a ∷ rest) = a.event ∷ events_of rest

InTime-append :
    (floor : Option ℕ) (l k : List Fields)
    → InTime floor l
    → InTime (last_cursor floor l) k
    → InTime floor (l ++ k)
unfolding last_cursor
InTime-append floor [] k t t' = t'
InTime-append floor (event ∷ l) k t t' =
    (t.0, InTime-append (or_kept floor (as_int (get "time_us" event))) l k t.1 t')

all_brought-InTime :
    (cursor : Option ℕ) (l : List Connection)
    → SendsInTime (cursors cursor l) l
    → InTime cursor (all_brought l)
unfolding all_brought cursors
all_brought-InTime cursor [] s = tt
all_brought-InTime cursor (x ∷ rest) s =
    InTime-append cursor (brought x) (all_brought rest) s.0
      (all_brought-InTime (last_cursor cursor (brought x)) rest s.1)

asked-urls : (settings : Settings) (l : List (Option ℕ)) → asked (urls settings l) ≡ l
unfolding urls build_url
asked-urls settings [] = refl
asked-urls settings (c ∷ l) = ap (λ k. c ∷ k) (asked-urls settings l)

-- What rises from `high` rises from `low`.
abbrev Lower : Option ℕ → Option ℕ → Type 0
Lower low high = (o : Option ℕ) → rises high o ≡ true → rises low o ≡ true

rises_trans :
    (high o o' : Option ℕ)
    → rises high o ≡ true
    → rises (or_kept high o) o' ≡ true
    → rises high o' ≡ true
rises_trans high none o' r r' = r'
rises_trans none (some c) none r r' = refl
rises_trans none (some c) (some d) r r' = refl
rises_trans (some h) (some c) none r r' = refl
rises_trans (some h) (some c) (some d) r r' = ground arith

kept-Lower :
    (low high o : Option ℕ)
    → rises high o ≡ true
    → Lower low high
    → Lower (next_floor low o) (or_kept high o)
kept-Lower low high none r lower = lower
kept-Lower low high (some c) r lower = λ o e. e

-- An event that parses, and one that does not.
cursor_of-Lower :
    (r : Result Event) (low high : Option ℕ) (v : Value)
    → rises high (as_int v) ≡ true
    → Lower low high
    → (rises low (cursor_of r v) ≡ true)
      × Lower (next_floor low (cursor_of r v)) (or_kept high (as_int v))
cursor_of-Lower (ok _) low high v r lower =
    (lower (as_int v) r, kept-Lower low high (as_int v) r lower)
cursor_of-Lower (raised _) low high v r lower =
    (refl, λ o e. lower o (rises_trans high (as_int v) o r e))

InTime-Rising :
    (py : Pydantic) (low high : Option ℕ) (l : List Arrival)
    → Lower low high
    → InTime high (events_of l)
    → Rising py low l
InTime-Rising py low high [] lower t = tt
InTime-Rising py low high (a ∷ rest) lower t =
    let v = get "time_us" a.event in
    let (here, lower') = cursor_of-Lower (to_model py a.event) low high v t.0 lower in
    (
      here,
      InTime-Rising py (next_floor low (taken_cursor py a)) (or_kept high (as_int v)) rest lower'
          t.1,
    )

-- `run` over the events that the Jetstream client yields. Let each connection send its events in
-- the order of their `time_us`, from the cursor of the client's request for it on, whose event may
-- come again. Then no event that parses is lost: if its cursor lies above the loaded one, it is with
-- the broker at the end or lies above the stored cursor.
pub reconnects_no_loss :
    {Queue : Type 0} (kafka : Kafka Queue) (py : Pydantic) (print : Printing) (settings : Settings)
    (now wall : ℕ) (saves : Bool) (queue : Queue) (store : CursorStore)
    (arrivals : Option ℕ → List Arrival) (connections : List Connection) (client : Client) (c : ℕ)
    → events settings connections (new_client (load settings.stream_name store)) ≡ some client
    → SendsInTime (asked client.requests) connections
    → events_of (arrivals (load settings.stream_name store)) ≡ client.yielded
    → arrives py c (arrivals (load settings.stream_name store)) ≡ true
    → above (load settings.stream_name store) c ≡ true
    → let s = (run kafka py print settings now wall saves queue store arrivals).1 in
      (kafka.stored c s.outbox.queue ≡ true) ⊎ (above (load settings.stream_name s.store) c ≡ true)
reconnects_no_loss kafka py print settings now wall saves queue store arrivals connections client c
      yields sends turns e up =
    let start = load settings.stream_name store in
    let stands = events-Stands settings connections (new_client start) client yields in
    let sends' : SendsInTime (cursors start connections) connections =
      (let e = rw (stands.requested) at sends in rw asked-urls at e) in
    let timed : InTime start (events_of (arrivals start)) =
      (rw (turns, stands.yields) (all_brought-InTime start connections sends')) in
    run_no_loss kafka py print settings now wall saves queue store arrivals c
      (Rising-none py start (arrivals start)
        (InTime-Rising py start start (arrivals start) (λ o x. x) timed))
      e up

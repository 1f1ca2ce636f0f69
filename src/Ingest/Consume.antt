-- ===== src/Ingest/Consume.antt =====
-- `_consume` and `run` of ingest/main.py. An arrival is one turn of the `async for`: the event,
-- whether `stop` is set, and the clocks. The texts that Python makes of values are parameters.
pub mod Calls
pub mod Follows
pub mod Produces
pub mod Turns
pub mod Completes
pub mod ReadsAll
pub mod CatchesUp
pub mod Rising
pub mod Settled
pub mod Drained
pub mod NoLoss
pub mod Routing
pub mod Preserves
pub mod Killed
pub mod Restarts
pub mod Reconnects
use bluesky_trends.Prelude.{
  ℕ, ◌+◌, String, ◌≡◌, Bool, true, false, Option, none, some, List, [], ◌∷◌, leb, if◌then◌else◌,
}
use bluesky_trends.Json.{Value, str, obj, Fields, find, get, as_dict, as_int}
use bluesky_trends.Exceptions.{Result, ok, raised, Exception, is_value_error, is_malformed_error}
use bluesky_trends.Schemas.{Pydantic}
use bluesky_trends.Ingest.Config.{Settings}
use bluesky_trends.Ingest.CursorStore.{CursorStore, load}
use bluesky_trends.Ingest.Checkpointer.{
  Checkpointer, new_checkpointer, register, maybe_save_or_raise, final_save_or_raise,
}
use bluesky_trends.Ingest.Parse.{Event, to_model}
use bluesky_trends.Ingest.Metrics.{Metrics, Stats, new_metrics, record_event, record_dlq, log_stats}
use bluesky_trends.Ingest.Kafka.{Kafka}
use bluesky_trends.Ingest.Producer.{Outbox, poll, flush, produce, produce_dlq}

-- `json.dumps` with sorted keys, `repr` of an exception, and `str` of a value.
pub record Printing : Type 0 where
  pub dumps : Fields → String
  pub repr : Exception → String
  pub to_str : Value → String
  pub to_str-str : (s : String) → to_str (str s) ≡ s

pub record Arrival : Type 0 where
  pub event : Fields
  pub stop : Bool
  -- whether Postgres takes the statement of a save in this turn
  pub saves : Bool
  pub monotonic : ℕ
  pub wall : ℕ

pub record Session (Queue : Type 0) : Type 0 where
  pub outbox : Outbox Queue
  pub store : CursorStore
  pub metrics : Metrics
  pub last_stats : ℕ
  pub logged : List Stats

-- `serialize_raw`
abbrev pub serialize_raw : Printing → Fields → String
serialize_raw print event = print.dumps event

abbrev pub or_else : Value → Option Value → Value
or_else v none = v
or_else v (some w) = w

abbrev pub collection_in : Option Fields → Value
collection_in none = str "unknown"
collection_in (some commit) = or_else (str "unknown") (find "collection" commit)

-- The collection that the loop reads for the DLQ and the metrics.
unfoldable pub collection_of : Fields → Value
collection_of event = collection_in (as_dict (get "commit" event))

-- The session after a call of the producer: the metrics move only if the call returned.
abbrev pub with_outbox :
    {Queue : Type 0}
    → (Metrics → Metrics)
    → Session Queue
    → Result (Unit {0}) × Outbox Queue
    → Result (Unit {0}) × Session Queue
with_outbox f s (ok _, out) = (ok tt, record s { outbox = out; metrics = f s.metrics })
with_outbox f s (raised e, out) = (raised e, record s { outbox = out })

-- The session at the start of `run`, at the monotonic clock's time `now`.
abbrev pub new_session : {Queue : Type 0} → ℕ → Queue → CursorStore → Session Queue
new_session now queue store = record {
  outbox = record { queue = queue; checkpointer = new_checkpointer now };
  store = store;
  metrics = new_metrics;
  last_stats = now;
  logged = [];
}

module _ {Queue : Type 0} (kafka : Kafka Queue) (py : Pydantic) (print : Printing)
    (settings : Settings) where
  -- To the DLQ, and then the count of the reason; `BufferError` leaves the loop.
  unfoldable pub to_dlq :
      String → String → Arrival → Session Queue → Result (Unit {0}) × Session Queue
  to_dlq error reason a s = with_outbox (record_dlq reason) s (
      produce_dlq kafka settings (serialize_raw print a.event) error
        (print.to_str (collection_of a.event)) a.wall s.outbox)

  -- The `else` branch: a model with its cursor.
  unfoldable pub to_kafka :
      Event → Option ℕ → Arrival → Session Queue → Result (Unit {0}) × Session Queue
  unfolding to_dlq
  to_kafka model none a s = to_dlq "missing or non-int time_us" "missing_time_us" a s
  to_kafka model (some cursor) a s =
      with_outbox (record_event (print.to_str (collection_of a.event)) a.wall) s (
        produce kafka settings model cursor
          (record s.outbox { checkpointer = register cursor s.outbox.checkpointer }))

  -- The `try` with its handlers, in their order.
  unfoldable pub route : Result Event → Arrival → Session Queue → Result (Unit {0}) × Session Queue
  unfolding to_dlq to_kafka
  route (ok model) a s = to_kafka model (as_int (get "time_us" a.event)) a s
  route (raised e) a s =
      if is_value_error e
      then (ok tt, s)
      else if is_malformed_error e
      then to_dlq (print.repr e) (print.to_str (collection_of a.event)) a s
      else (raised e, s)

  -- The statistics, which come after the checkpoint unless that raises.
  abbrev pub after_save :
      Arrival
      → Session Queue
      → Outbox Queue
      → Result (Unit {0}) × (Checkpointer × CursorStore)
      → Result (Unit {0}) × Session Queue
  after_save a s out (raised e, (cp, store)) =
      (raised e, record s { outbox = record out { checkpointer = cp }; store = store })
  after_save a s out (ok _, (cp, store)) =
      let due = leb (s.last_stats + settings.stats_interval_seconds) a.monotonic in
      (
        ok tt,
        record {
          outbox = record out { checkpointer = cp };
          store = store;
          metrics = s.metrics;
          last_stats = if due then a.monotonic else s.last_stats;
          logged = if due then log_stats a.wall s.metrics ∷ s.logged else s.logged;
        },
      )

  -- The rest of the turn: poll, checkpoint, statistics.
  unfoldable pub finish_turn : Arrival → Session Queue → Result (Unit {0}) × Session Queue
  finish_turn a s =
      let out = poll kafka 0 s.outbox in
      after_save a s out
        (maybe_save_or_raise settings a.monotonic a.saves (out.checkpointer, s.store))

  abbrev pub finish_if_ok :
      Arrival → Result (Unit {0}) × Session Queue → Result (Unit {0}) × Session Queue
  finish_if_ok a (ok _, s) = finish_turn a s
  finish_if_ok a (raised e, s) = (raised e, s)

  -- One turn of the loop that is not stopped.
  unfoldable pub turn : Arrival → Session Queue → Result (Unit {0}) × Session Queue
  turn a s = finish_if_ok a (route (to_model py a.event) a s)

  -- The loop over the events that arrive.
  unfoldable pub consume : List Arrival → Session Queue → Result (Unit {0}) × Session Queue
  consume [] s = (ok tt, s)
  consume (a ∷ rest) s = if a.stop then (ok tt, s) else elim (turn a s).0 [
    | ok _ ↦ consume rest (turn a s).1
    | raised e ↦ (raised e, (turn a s).1)
  ]

  -- The last log line, which comes after the last save unless that raises.
  abbrev pub after_final_save :
      ℕ
      → Session Queue
      → Outbox Queue
      → Result (Unit {0}) × (Checkpointer × CursorStore)
      → Result (Unit {0}) × Session Queue
  after_final_save wall s out (raised e, (cp, store)) =
      (raised e, record s { outbox = record out { checkpointer = cp }; store = store })
  after_final_save wall s out (ok _, (cp, store)) = (
    ok tt,
    record s {
      outbox = record out { checkpointer = cp };
      store = store;
      logged = log_stats wall s.metrics ∷ s.logged;
    },
  )

  -- The `finally` of `run`: flush, the last save, the last log line. `saves` is whether Postgres
  -- takes the statement of the last save.
  unfoldable pub drain_session : ℕ → Bool → Session Queue → Result (Unit {0}) × Session Queue
  drain_session wall saves s =
      let (out, left) = flush kafka 30000 s.outbox in
      after_final_save wall s out (final_save_or_raise settings saves (out.checkpointer, s.store))

  -- An exception of the `finally` replaces that of the loop.
  abbrev pub finally :
      Result (Unit {0}) → Result (Unit {0}) × Session Queue → Result (Unit {0}) × Session Queue
  finally r (ok _, s) = (r, s)
  finally r (raised e, s) = (raised e, s)

  -- `run`: the cursor that it loads, for the connection, and how the session ends. `arrivals`
  -- gives the events of a connection that starts at a cursor.
  unfoldable pub run :
      ℕ
      → ℕ
      → Bool
      → Queue
      → CursorStore
      → (Option ℕ → List Arrival)
      → Result (Unit {0}) × Session Queue
  run now wall saves queue store arrivals =
      let (r, s) =
        consume (arrivals (load settings.stream_name store)) (new_session now queue store) in
      finally r (drain_session wall saves s)

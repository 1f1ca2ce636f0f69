-- ===== src/Ingest/Consume/Turns.antt =====
-- A turn of the loop of ingest/main.py against histories of calls of the checkpointer.
use bluesky_trends.Prelude.{
  arith, ℕ, ◌≡◌, refl, ◌&&◌, not, Option, none, some, List, ◌∷◌, inl, inr, Bool-cases, String,
}
use bluesky_trends.Exceptions.{Result, ok, raised, is_value_error, is_malformed_error}
use bluesky_trends.Json.{get}
use bluesky_trends.Schemas.{Pydantic}
use bluesky_trends.Ingest.Parse.{Event, to_model}
use bluesky_trends.Ingest.Config.{Settings}
use bluesky_trends.Ingest.CursorStore.{CursorStore}
use bluesky_trends.Ingest.Metrics.{record_event, record_dlq}
use bluesky_trends.Ingest.Checkpointer.{register, due, maybe_save, maybe_save_or_raise}
use bluesky_trends.Ingest.Checkpointer.Trace
use bluesky_trends.Ingest.Checkpointer.Trace.{
  Call, produced, delivered, checkpoint, shutdown, registered, acked, Latest, InOrder,
}
use bluesky_trends.Ingest.Kafka.{Kafka}
use bluesky_trends.Ingest.Producer.{Outbox, poll, produce, produce_dlq}
use bluesky_trends.Ingest.Consume.{
  Printing, Arrival, Session, to_dlq, to_kafka, route, finish_turn, finish_if_ok, turn, after_save,
  collection_of, serialize_raw,
}
use bluesky_trends.Ingest.Consume.Follows.{
  cursor_of, taken_cursor, Follows, Grown, poll-Grown, Grown-trans,
}
use bluesky_trends.Ingest.Consume.Produces.{produce-Grown, produce_dlq-Grown, with_outbox-Grown}

module _ {Queue : Type 0} (kafka : Kafka Queue) (settings : Settings) (now : ℕ)
    (begin : CursorStore) where
  module _ (py : Pydantic) (print : Printing) (a : Arrival) (h : List Call) (s : Session Queue)
      (f : Follows kafka settings now begin h s.outbox s.store) where
    to_dlq-Grown :
        (error reason : String)
        → let s' = (to_dlq kafka py print settings error reason a s).1 in
          Grown kafka settings now begin none h s'.outbox s'.store
    unfolding to_dlq
    to_dlq-Grown error reason =
        with_outbox-Grown kafka settings now begin none (record_dlq reason) h s
          (produce_dlq kafka settings (serialize_raw print a.event) error
            (print.to_str (collection_of a.event)) a.wall s.outbox)
          (produce_dlq-Grown kafka settings now begin _ _ _ _ h s.outbox s.store f)

    to_kafka-Grown :
        (model : Event) (o : Option ℕ)
        → ((c : ℕ) → o ≡ some c → Latest c h)
        → let s' = (to_kafka kafka py print settings model o a s).1 in
          Grown kafka settings now begin o h s'.outbox s'.store
    unfolding to_kafka
    to_kafka-Grown model none n = to_dlq-Grown "missing or non-int time_us" "missing_time_us"
    to_kafka-Grown model (some c) n =
        with_outbox-Grown kafka settings now begin (some c)
          (record_event (print.to_str (collection_of a.event)) a.wall) h s
          (produce kafka settings model c
            (record s.outbox { checkpointer = register c s.outbox.checkpointer }))
          (produce-Grown kafka settings now begin model c h s.outbox s.store (n c refl) f)

    route-Grown :
        (r : Result Event)
        → ((c : ℕ) → cursor_of r (get "time_us" a.event) ≡ some c → Latest c h)
        → let s' = (route kafka py print settings r a s).1 in
          Grown kafka settings now begin (cursor_of r (get "time_us" a.event)) h s'.outbox s'.store
    unfolding route
    route-Grown (ok model) n = to_kafka-Grown model _ n
    route-Grown (raised e) n = elim (Bool-cases (is_value_error e)) [
      | inl skip ↦ rw skip (h, f, λ c. refl)
      | inr other ↦ elim (Bool-cases (is_malformed_error e)) [
        | inl malformed ↦
            rw (other, malformed)
              (to_dlq-Grown (print.repr e) (print.to_str (collection_of a.event)))
        | inr escapes ↦ rw (other, escapes) (h, f, λ c. refl)
      ]
    ]

  module _ (py : Pydantic) (print : Printing) (a : Arrival) where
    -- After the checkpoint: a save that raises leaves the history as it was.
    after_save-Grown :
        (h : List Call) (s : Session Queue) (out : Outbox Queue)
        → Follows kafka settings now begin h out s.store
        → let s' =
            (after_save kafka py print settings a s out
              (maybe_save_or_raise settings a.monotonic a.saves (out.checkpointer, s.store))).1 in
          Grown kafka settings now begin none h s'.outbox s'.store
    unfolding maybe_save_or_raise
    after_save-Grown h s out f =
        elim (Bool-cases (due settings a.monotonic out.checkpointer && not a.saves)) [
          | inl fails ↦ rw fails (
            h,
            record { in_order = f.in_order; state = f.state; stored = f.stored; live = f.live },
            λ c. refl,
          )
          | inr works ↦ rw works (
            checkpoint a.monotonic ∷ h,
            record {
              in_order = f.in_order;
              state = unfold Trace.run in rw f.state refl;
              stored = unfold acked in f.stored;
              live = unfold maybe_save in λ w c e. f.live w c (ground arith);
            },
            λ c. unfold registered in refl,
          )
        ]

    finish_turn-Grown :
        (h : List Call) (s : Session Queue)
        → Follows kafka settings now begin h s.outbox s.store
        → let s' = (finish_turn kafka py print settings a s).1 in
          Grown kafka settings now begin none h s'.outbox s'.store
    unfolding finish_turn
    finish_turn-Grown h s f =
        let (h', f', same) = poll-Grown kafka settings now begin 0 h s.outbox s.store f in
        Grown-trans kafka settings now begin none h h' _ _ same
          (after_save-Grown h' s (poll kafka 0 s.outbox) f')

    finish_if_ok-Grown :
        (at : Option ℕ) (h : List Call) (p : Result (Unit {0}) × Session Queue)
        → Grown kafka settings now begin at h p.1.outbox p.1.store
        → let s' = (finish_if_ok kafka py print settings a p).1 in
          Grown kafka settings now begin at h s'.outbox s'.store
    finish_if_ok-Grown at h (raised e, s) g = g
    finish_if_ok-Grown at h (ok _, s) (h', f, same) =
        Grown-trans kafka settings now begin at h h' _ _ same (finish_turn-Grown h' s f)

    -- A turn registers the cursor of the event that it produces, if it produces one.
    pub turn-Grown :
        (h : List Call) (s : Session Queue)
        → ((c : ℕ) → taken_cursor py a ≡ some c → Latest c h)
        → Follows kafka settings now begin h s.outbox s.store
        → let s' = (turn kafka py print settings a s).1 in
          Grown kafka settings now begin (taken_cursor py a) h s'.outbox s'.store
    unfolding turn
    turn-Grown h s n f =
        finish_if_ok-Grown (taken_cursor py a) h _
          (route-Grown py print a h s f (to_model py a.event) n)

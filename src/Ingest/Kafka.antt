-- ===== src/Ingest/Kafka.antt =====
-- What the ingest service uses of confluent-kafka, as an interface: the local queue of the
-- librdkafka producer, its delivery reports, and the Avro serializer.
use bluesky_trends.Prelude.{
  ℕ, String, ◌≡◌, Bool, true, false, ◌||◌, ◌&&◌, Option, some, List, [], ◌∷◌, ◌==◌,
}
use bluesky_trends.Json.{Fields}

-- The delivery callbacks that the program makes: `_cb` of `produce` holds the cursor, and `_cb`
-- of `produce_dlq` only logs.
pub data Callback : Type 0 where
  cursor_acked : ℕ → Callback
  dlq_logged : Callback

pub record Message : Type 0 where
  pub topic : String
  pub key : Option String
  pub value : List ℕ
  pub on_delivery : Callback

-- A callback that was called, and whether the delivery succeeded (`err is None`).
abbrev pub Report : Type 0
Report = Callback × Bool

abbrev pub is_cursor : ℕ → Callback → Bool
is_cursor c (cursor_acked d) = c == d
is_cursor c dlq_logged = false

-- A successful delivery of the cursor is among the reports.
unfoldable pub reports_success : ℕ → List Report → Bool
reports_success c [] = false
reports_success c ((callback, success) ∷ rs) =
    (success && is_cursor c callback) || reports_success c rs

pub record Kafka (Queue : Type 0) : Type 0 where
  -- `produce`: `none` is `BufferError`.
  pub offer : Message → Queue → Option Queue
  -- `poll(timeout)`, in milliseconds, with the callbacks that it calls.
  pub serve : ℕ → Queue → Queue × List Report
  -- `flush(timeout)`, with the number of messages still queued.
  pub drain : ℕ → Queue → Queue × List Report × ℕ
  pub serialize : String → Fields → List ℕ
  -- The messages that the queue has taken, oldest first.
  pub taken : Queue → List Message
  -- The broker has a message of this cursor.
  pub stored : ℕ → Queue → Bool
  -- A full queue refuses a message and is unchanged; otherwise the message is taken once.
  pub offer_taken : (m : Message) (q q' : Queue) → offer m q ≡ some q' → taken q' ≡ m ∷ taken q
  pub serve_taken : (t : ℕ) (q : Queue) → taken (serve t q).0 ≡ taken q
  pub drain_taken : (t : ℕ) (q : Queue) → taken (drain t q).0 ≡ taken q
  -- What the broker has it keeps.
  pub offer_stored :
      (c : ℕ) (m : Message) (q q' : Queue)
      → offer m q ≡ some q'
      → stored c q ≡ true
      → stored c q' ≡ true
  pub serve_stored : (c t : ℕ) (q : Queue) → stored c q ≡ true → stored c (serve t q).0 ≡ true
  pub drain_stored : (c t : ℕ) (q : Queue) → stored c q ≡ true → stored c (drain t q).0 ≡ true
  -- With `acks=all` a successful report means that the broker has the message.
  pub serve_reports :
      (c t : ℕ) (q : Queue) → reports_success c (serve t q).1 ≡ true → stored c (serve t q).0 ≡ true
  pub drain_reports :
      (c t : ℕ) (q : Queue) → reports_success c (drain t q).1 ≡ true → stored c (drain t q).0 ≡ true

-- A librdkafka whose every delivery succeeds: after a poll there is room in the queue, each message
-- of a cursor waits in it until a poll or a flush reports its success, and a flush leaves none
-- waiting.
pub record Healthy {Queue : Type 0} (kafka : Kafka Queue) : Type 0 where
  pub waiting : ℕ → Queue → Bool
  pub offered :
      (c : ℕ) (m : Message) (q q' : Queue)
      → kafka.offer m q ≡ some q'
      → (is_cursor c m.on_delivery || waiting c q) ≡ true
      → waiting c q' ≡ true
  pub served :
      (c t : ℕ) (q : Queue)
      → waiting c q ≡ true
      → (reports_success c (kafka.serve t q).1 || waiting c (kafka.serve t q).0) ≡ true
  pub drained :
      (c t : ℕ) (q : Queue) → waiting c q ≡ true → reports_success c (kafka.drain t q).1 ≡ true
  pub room_after_poll :
      (m : Message) (t : ℕ) (q : Queue)
      → (q' : Queue) × (kafka.offer m (kafka.serve t q).0 ≡ some q')

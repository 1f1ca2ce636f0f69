-- ===== src/Lib.antt =====
-- Verification of bluesky-trends: the ingest service, which takes posts, likes and follows from the
-- Jetstream firehose to Kafka, and the batch layer, which archives the Kafka topics in Iceberg and
-- loads the archive into ClickHouse.
--
-- The ingest service (ingest/*.py, schemas/models.py):
--   Schemas, Schemas/Dump     schemas/models.py: the pydantic models, their validation, model_dump
--   Ingest/Config             ingest/config.py: Settings
--   Ingest/CursorStore        ingest/cursor_store.py: load and save on the rows of the table
--   Ingest/Checkpointer       ingest/main.py: _CursorCheckpointer, a function for each method; its
--                             children hold one pass over the pending cursors (Advance, Passes),
--                             histories of calls (Trace), the invariant of cursors that increase
--                             (Invariant) or come again (Replay), what the watermark (Watermark) and
--                             the stored cursor (Resume, Shutdown) mean, a specification (Ledger)
--   Ingest/Parse              ingest/parse.py: to_model, _common, _reply
--   Ingest/Metrics            ingest/metrics.py: Metrics
--   Ingest/Kafka              the interface of librdkafka and of the Avro serializer, with its laws
--   Ingest/Producer           ingest/producer.py: IngestProducer over that interface; Order has the
--                             orders in which the delivery callbacks may be called
--   Ingest/Consume            ingest/main.py: _consume and run; its children relate the loop to
--                             histories of calls of the checkpointer (Calls, Follows, Produces, Turns,
--                             Rising, Settled, Drained), to what reaches Kafka (Routing, Preserves, NoLoss),
--                             follow the service over its restarts (Killed, Restarts) and the
--                             reconnects of its client (Reconnects), and a run in which nothing
--                             fails (Completes, ReadsAll, CatchesUp)
--   Ingest/Jetstream          ingest/jetstream_client.py: backoff_delay, build_url, events
--   Ingest/Inject             ingest/dev_inject_dlq.py: main, compared with the loop in Service
-- The batch layer (dagster/bsky_dagster):
--   Dagster/Config            config.py: Settings
--   Dagster/Decode            transforms/decode.py, decode_likes.py, decode_follows.py
--   Dagster/Batch             transforms/batch.py, batch_likes.py, batch_follows.py: once for all rows
--   Dagster/Bronze            assets/bronze.py and its copies for likes and follows: the archiver loop;
--                             its children count rows (Count), follow every record (Rows), compare
--                             commits with rows (Committed, Turns, NoLoss, Quarantine), and end (Stops)
--   Dagster/Assets            the three bronze assets as instances of it; the state at the start (NoLoss)
--   Dagster/Materialize       assets/bronze.py and assets/landing.py as whole assets, from the catalog
--                             and the consumer groups to the MaterializeResult; Rule and Counts are on
--                             the loop, Result on the metadata, Pipeline on a landing after a bronze
--   Dagster/Landing           assets/landing.py and its copies, resources/clickhouse.py: insert_block
--   Dagster/Schema            transforms/bronze_schema.py and its copies; Table has to_arrow of the
--                             batches and how a landing asset zips the rows from the columns
--   Dagster/Checks            checks.py, and scalar of resources/clickhouse.py; Queries has the nine
--                             checks, AfterRun the freshness check after a run
--   Dagster/Dlq               dlq.py: send, over Ingest/Kafka
--   Dagster/Iceberg           resources/iceberg.py: ensure_table, over an interface of pyiceberg
--   Dagster/Resources         resources/kafka.py, iceberg.py, clickhouse.py: how clients are constructed
--   Dagster/Definitions       definitions.py and assets/dbt.py: the asset graph and the translator
-- Shared: Prelude (tests, dictionaries, sorted), Json (the values of json.loads and of Avro records),
-- Exceptions (what to_model and the producer raise). Samples and Tests apply the theorems.
--
-- How they interact: run loads the cursor and starts the client there; each event goes through
-- to_model; the loop registers its cursor and produces it; the delivery callbacks, which a poll or a
-- flush calls, tell the checkpointer; maybe_save and final_save write the watermark to the store. The
-- archiver decodes the records that it polls, holds their rows in a batch, and flushes it to Iceberg
-- before it commits the offsets; the landing assets read what is newer than their watermark.
--
-- What stands for what: the wall clock, a datetime and `time_us` are whole numbers of microseconds, the
-- monotonic clock and the durations of the settings whole numbers of milliseconds, a ratio is a
-- fraction, a cursor and an offset are natural numbers. JSON and Avro integers are never negative here,
-- and a float is kept as its text. A state is a record, a method a function from state to state, an
-- exception a value. One turn of the archiver reads each clock once. `_consume` and the archiver recurse on the list of what arrives or
-- is polled, so that the end of the list is as far as the process came; nothing there needs fuel. The
-- five retries of `_enqueue` recurse on their number. The blocks of `_insert_arrow` recurse on the
-- number of rows, which is enough as each block takes one at least.
--
-- Parameters: pydantic's reading of one field (Schemas.Pydantic), librdkafka with acks=all
-- (Ingest.Kafka), the texts that Python makes (Ingest.Consume.Printing, Dagster.Decode.Texts), the
-- Avro deserializer, the methods of pyiceberg that change the catalog (Dagster.Iceberg.Pyiceberg), for
-- each poll whether Iceberg, the broker and the DLQ producer return, for each
-- turn of the ingest loop whether Postgres takes a save, the dbt manifest, and what ClickHouse answers
-- to the queries of the checks.
-- Assumed: Jetstream sends events in the order of their time_us from the cursor it is asked for, and
-- Kafka sends the records of a partition in the order of their offsets from the committed one.
--
-- Not modelled: floats beyond these fractions, logging, reading the environment and files, opening
-- and closing connections, a Postgres that fails when the run loads the cursor (the run has not begun
-- then), cancellation and the signals that set `stop`, a process that dies inside a
-- call of the producer, an Avro serializer that raises and errors of librdkafka other than
-- `BufferError` when a message is handed over, the run of dbt, its SQL, and dashboards.
pub mod Prelude
pub mod Json
pub mod Exceptions
pub mod Schemas
pub mod Ingest
pub mod Dagster
pub mod Samples
pub mod Tests

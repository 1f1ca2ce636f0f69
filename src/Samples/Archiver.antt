-- ===== src/Samples/Archiver.antt =====
-- Polls, rows and states of the archiver for the tests.
use bluesky_trends.Prelude.{ℕ, zero, suc, true, Option, none, some, List, [], ◌∷◌}
use bluesky_trends.Prelude.Dict.{Dict}
use bluesky_trends.Json.{Fields}
use bluesky_trends.Schemas.Dump.{dump_post, dump_like, dump_follow}
use bluesky_trends.Dagster.Config.{default_settings}
use bluesky_trends.Dagster.Decode.{Place, BronzeRow, post_row}
use bluesky_trends.Dagster.Batch.{new_batch, add}
use bluesky_trends.Dagster.Bronze.{Polled, nothing, message, Poll, Archive}
use bluesky_trends.Dagster.Assets.{started}
use bluesky_trends.Samples.{pydantic, texts, a_post, a_like, a_follow}

abbrev pub deserialize : List ℕ → Option Fields
deserialize (suc zero ∷ _) = some (dump_post a_post)
deserialize (suc (suc zero) ∷ _) = some (dump_like a_like)
deserialize (suc (suc (suc zero)) ∷ _) = some (dump_follow a_follow)
deserialize _ = none

abbrev pub poll_of : Polled → Poll
poll_of m = record {
  polled = m;
  now = 15000;
  wall = 7;
  assignment = 0 ∷ [];
  appends = true;
  commits = true;
  sends = true;
}

-- Two records of partition 0 with values of this kind, from offset 4 on.
abbrev pub two_records : ℕ → List Poll
two_records kind =
    poll_of (message (some 0) (some 4) (kind ∷ []))
    ∷ poll_of (message (some 0) (some 5) (kind ∷ []))
    ∷ []

abbrev pub committed : Dict ℕ
committed = (0, 4) ∷ []

abbrev pub last : Poll
last = poll_of nothing

abbrev pub a_place : ℕ → Place
a_place o = record { kafka_partition = 0; kafka_offset = o; ingest_ts = 7 }

abbrev pub a_row : ℕ → BronzeRow
a_row o = post_row pydantic texts (a_place o) a_post

abbrev pub fresh : Archive BronzeRow
fresh = started pydantic texts deserialize default_settings 8000 [] committed

abbrev pub one_waiting : Archive BronzeRow
one_waiting = record fresh { batch = add (λ r. r.place) (a_row 4) (new_batch 10 5000) }

-- ===== src/Tests/Quarantine.antt =====
-- The theorems on records that do not decode at concrete polls.
use bluesky_trends.Prelude.{◌≤◌, ◌<◌, ◌≡◌, refl, true, false, some, List, [], ◌∷◌, arith}
use bluesky_trends.Prelude.Dict.{lookup, insert}
use bluesky_trends.Json.{find}
use bluesky_trends.Schemas.{validate_post, only, one_of}
use bluesky_trends.Dagster.Config.{default_settings}
use bluesky_trends.Dagster.Decode.{BronzeRow, undecodable, decode_post}
use bluesky_trends.Dagster.Batch.{new_batch, add, should_flush, clear}
use bluesky_trends.Dagster.Bronze.{
  message, Poll, quarantine, accept, handle, turn, archive_loop, archive, flush, flush_if_due,
  commit, discard, drained,
}
use bluesky_trends.Dagster.Bronze.Committed.{next, stands}
use bluesky_trends.Dagster.Bronze.Quarantine.{
  quarantine_commits_past_batch, flush_rereads_quarantined,
}
use bluesky_trends.Dagster.Batch.Offsets.{HasOffsets, highest, add-HasOffsets, new_batch-HasOffsets}
use bluesky_trends.Prelude.Dict.{NodupKeys}
use bluesky_trends.Dagster.Batch.{raise_offset}
use bluesky_trends.Dagster.Assets.{posts_vertical}
use bluesky_trends.Samples.{pydantic, texts}
use bluesky_trends.Samples.Archiver.{deserialize, poll_of, last, a_place, a_row, fresh, one_waiting}

waits : stands (λ (r : BronzeRow). r.place) 0 4 one_waiting.batch.rows ≡ true
unfolding stands add
waits = refl

quarantine_commits_past_batch_example :
    let s' =
      (quarantine
        (posts_vertical pydantic texts deserialize default_settings)
        last
        (a_place 5)
        undecodable
        one_waiting).1 in
    (s'.table ≡ [])
    × (stands (λ (r : BronzeRow). r.place) 0 4 s'.batch.rows ≡ true)
    × (4 < next 0 s'.committed)
quarantine_commits_past_batch_example =
    quarantine_commits_past_batch (posts_vertical pydantic texts deserialize default_settings) last
      (a_place 5) undecodable one_waiting 4 refl refl waits (omega arith)

-- A post at offset 4, a record at offset 5 that does not decode, and then Iceberg fails: the post
-- is not in the table, and the group reads on at offset 6.
abbrev failing : Poll
failing = record last { now = 20000; appends = false }

abbrev with_bad_record : List Poll
with_bad_record =
    poll_of (message (some 0) (some 4) (1 ∷ []))
    ∷ poll_of (message (some 0) (some 5) (0 ∷ []))
    ∷ failing
    ∷ []

lost_post :
    let s' =
      (archive
        (posts_vertical pydantic texts deserialize default_settings)
        100
        with_bad_record
        failing
        (record fresh { last_flush = 14000 })).1 in
    (s'.table ≡ []) × (lookup 0 s'.committed ≡ some 6)
unfolding archive archive_loop turn handle accept add decode_post validate_post find only one_of
    flush_if_due should_flush flush quarantine commit insert lookup clear discard drained
lost_post = (refl, refl)

one_waiting-HasOffsets : HasOffsets (λ r. r.place) one_waiting.batch
one_waiting-HasOffsets =
    add-HasOffsets (λ (r : BronzeRow). r.place) (a_row 4) (new_batch 10 5000)
      (new_batch-HasOffsets _ 10 5000)

one_waiting-NodupKeys : NodupKeys one_waiting.batch.offsets
unfolding add raise_offset lookup insert
one_waiting-NodupKeys = (refl, tt)

one_waiting-highest : highest (λ (r : BronzeRow). r.place) 0 one_waiting.batch.rows ≡ some 4
unfolding add highest
one_waiting-highest = refl

flush_rereads_quarantined_example :
    let v = posts_vertical pydantic texts deserialize default_settings in
    let s' = (flush last (quarantine v last (a_place 5) undecodable one_waiting).1).1 in
    (next 0 s'.committed ≤ 5) × (s'.dlq_sent ≡ (undecodable, "bsky.posts.v1") ∷ [])
flush_rereads_quarantined_example =
    flush_rereads_quarantined (posts_vertical pydantic texts deserialize default_settings) last last
      (a_place 5) undecodable one_waiting 4 refl refl refl refl one_waiting-NodupKeys
      one_waiting-HasOffsets one_waiting-highest (omega arith)

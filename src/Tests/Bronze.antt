-- ===== src/Tests/Bronze.antt =====
-- The theorems on the archiver at concrete polls.
use bluesky_trends.Prelude.{List, some, ◌≤◌, ◌≡◌, refl, ◌⊎◌, true, [], ◌∷◌, ◌++◌, arith}
use bluesky_trends.Prelude.Dict.{lookup}
use bluesky_trends.Json.{find}
use bluesky_trends.Schemas.{validate_post, only, one_of}
use bluesky_trends.Dagster.Config.{default_settings}
use bluesky_trends.Dagster.Decode.{BronzeRow, decode_post}
use bluesky_trends.Dagster.Decode.Laws.{decode_post-place}
use bluesky_trends.Dagster.Batch.{add, should_flush, clear, is_empty}
use bluesky_trends.Dagster.Bronze.{
  Poll, nothing, kafka_error, member, stopped, accept, handle, turn, archive_loop, archive, flush,
  flush_if_due,
}
use bluesky_trends.Dagster.Bronze.Rows.{Archived, all_rows, rows_of, archive_complete}
use bluesky_trends.Dagster.Bronze.Count.{count, count-archive}
use bluesky_trends.Dagster.Bronze.Committed.{next, stands}
use bluesky_trends.Dagster.Bronze.Turns.{Readable}
use bluesky_trends.Dagster.Bronze.NoLoss.{archive_no_loss}
use bluesky_trends.Dagster.Bronze.Stops.{all_quiet, reported, covered, archive_stops}
use bluesky_trends.Dagster.Assets.{posts_vertical}
use bluesky_trends.Dagster.Assets.NoLoss.{new_archive-Safe}
use bluesky_trends.Samples.{pydantic, texts}
use bluesky_trends.Samples.Archiver.{
  deserialize, two_records, committed, last, fresh, one_waiting, poll_of,
}

ends :
    (archive
      (posts_vertical pydantic texts deserialize default_settings)
      2
      (two_records 1)
      last
      fresh).0
    ≡ stopped
unfolding archive archive_loop turn handle accept add decode_post validate_post find only one_of
    flush_if_due should_flush flush clear
ends = refl

archive_complete_example :
    let v = posts_vertical pydantic texts deserialize default_settings in
    Archived v (two_records 1) fresh (archive v 2 (two_records 1) last fresh).1
archive_complete_example =
    archive_complete (posts_vertical pydantic texts deserialize default_settings) 2 (two_records 1)
      last fresh ends

count-archive_example :
    count
      (archive
        (posts_vertical pydantic texts deserialize default_settings)
        2
        (two_records 1)
        last
        fresh).1
    ≤ 2
count-archive_example =
    count-archive (posts_vertical pydantic texts deserialize default_settings) 2 (two_records 1)
      last fresh (omega arith)

posts-Readable :
    Readable
      (posts_vertical pydantic texts deserialize default_settings)
      (λ q. next q committed)
      (two_records 1)
unfolding decode_post validate_post find only one_of lookup
posts-Readable = ((ground arith, refl), ((ground arith, refl), tt))

reached :
    stands
      (λ (r : BronzeRow). r.place)
      0
      5
      (all_rows (posts_vertical pydantic texts deserialize default_settings) (two_records 1))
    ≡ true
unfolding stands all_rows rows_of decode_post validate_post find only one_of
reached = refl

archive_no_loss_example :
    let s' =
      (archive
        (posts_vertical pydantic texts deserialize default_settings)
        2
        (two_records 1)
        last
        fresh).1 in
    (stands (λ (r : BronzeRow). r.place) 0 5 s'.table ≡ true) ⊎ (next 0 s'.committed ≤ 5)
archive_no_loss_example =
    archive_no_loss (posts_vertical pydantic texts deserialize default_settings)
      (decode_post-place pydantic texts) 2 (two_records 1) last fresh 0 5
      (new_archive-Safe _ _ _ 8000 [] committed) posts-Readable reached

-- The end of the partition, and an idle poll at which the batch of one row is not yet due.
abbrev quiet : List Poll
quiet =
    record (poll_of (kafka_error true (some 0))) { now = 8100 }
    ∷ record (poll_of nothing) { now = 9200 }
    ∷ []

archive_stops_example :
    let r =
      archive
        (posts_vertical pydantic texts deserialize default_settings)
        100
        (quiet ++ last ∷ [])
        last
        one_waiting in
    (r.0 ≡ stopped) × (is_empty r.1.batch ≡ true)
archive_stops_example =
    archive_stops (posts_vertical pydantic texts deserialize default_settings) 100 quiet last []
      last one_waiting (unfold all_quiet in refl)
      (record {
        nothing_left = refl;
        assigned = refl;
        appends = refl;
        commits = refl;
        elapsed = unfold add in refl;
      })
      (unfold covered member reported in refl) refl refl
